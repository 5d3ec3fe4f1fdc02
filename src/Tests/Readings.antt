-- ===== src/Tests/Readings.antt =====
-- SMART readings, a posted event and the loop, at concrete inputs.
use homeserver_rust.Prelude.{
  ℕ, ◌≡◌, refl, Bool, true, String, List, [], ◌∷◌, Option, none, some, arith, ◌=s=◌, if◌then◌else◌,
}
use homeserver_rust.Prelude.Int.{ℤ, pos}
use homeserver_rust.Prelude.Entries.{lookup}
use homeserver_rust.Alerting.Engine.{AlertEvent, firing}
use homeserver_rust.Alerting.Engine
use homeserver_rust.Alerting.Notify.{JsonValues, Notifier, notify}
use homeserver_rust.Alerting.Notify
use homeserver_rust.Alerting.Notify.Payload.{Reader, IsReaderOf, Posted, notify-Posted}
use homeserver_rust.Smart.Parse.{Json, parse_scan_devices, is_wear_attr, wear_level}
use homeserver_rust.Smart.{Smartctl}
use homeserver_rust.Worker.Sampler.{WorkerConfig}
use homeserver_rust.Worker.Loop.{ticked, smart_ticked, refresh_ended, loop_after}
use homeserver_rust.Worker.Loop.Gated.{IsGated, loop_after-IsGated}
use homeserver_rust.Tests.Setup.{nat_float}
use homeserver_rust.Tests.Loop.{loop_config, tick, empty_world}

-- JSON values with whole numbers.
mutual
  data Value : Type 0 where
    null : Value
    flag : Bool → Value
    num : ℕ → Value
    text : String → Value
    array : Items → Value
    object : Fields → Value

  data Items : Type 0 where
    end : Items
    item : Value → Items → Items

  data Fields : Type 0 where
    empty : Fields
    field : String → Value → Fields → Fields

abbrev member : Fields → String → Value
member empty k = null
member (field l v fields) k = let rest = member fields k in if l =s= k then v else rest

abbrev index : Value → String → Value
index (object fields) k = member fields k
index _ k = null

abbrev items : Items → List Value
items end = []
items (item v rest) = v ∷ items rest

abbrev fields_of : List (String × Value) → Fields
fields_of [] = empty
fields_of ((k, v) ∷ rest) = field k v (fields_of rest)

abbrev as_array : Value → Option (List Value)
as_array (array vs) = some (items vs)
as_array _ = none

abbrev as_str : Value → Option String
as_str (text s) = some s
as_str _ = none

abbrev as_bool : Value → Option Bool
as_bool (flag b) = some b
as_bool _ = none

abbrev as_u64 : Value → Option ℕ
as_u64 (num n) = some n
as_u64 _ = none

abbrev as_i64 : Value → Option ℤ
as_i64 (num n) = some (pos n)
as_i64 _ = none

-- Two devices, of which the second has no wear level, and what `smartctl` prints of them.
abbrev scanned : Value
scanned = object (
    field "devices"
      (array (
        item (object (field "name" (text "/dev/sda") empty))
          (item (object (field "name" (text "/dev/sdb") empty)) end)))
      empty)

abbrev worn_disk : Value
worn_disk = object (
    field "model_name" (text "disk") (
      field "ata_smart_attributes"
        (object (
          field "table"
            (array (item (object (field "id" (num 177) (field "value" (num 93) empty))) end))
            empty))
        empty))

abbrev from_str : String → Option Value
from_str s = if s =s= "scan" then some scanned else if s =s= "disk" then some worn_disk else none

abbrev json : Json Value
json = record {
  from_str = from_str;
  index = index;
  as_array = as_array;
  as_str = as_str;
  as_bool = as_bool;
  as_i64 = as_i64;
  as_u64 = as_u64;
}

abbrev smartctl : Smartctl
smartctl [] = none
smartctl (arg ∷ []) = none
smartctl (arg ∷ j ∷ []) = if arg =s= "--scan" then some "scan" else none
smartctl (arg ∷ j ∷ device ∷ args) = if device =s= "/dev/sda" then some "disk" else none

scanned_devices : parse_scan_devices json "scan" ≡ "/dev/sda" ∷ "/dev/sdb" ∷ []
unfolding parse_scan_devices
scanned_devices = refl

worn_disk_level : wear_level json worn_disk ≡ some 7
unfolding wear_level is_wear_attr
worn_disk_level = refl

abbrev values : JsonValues Value ℕ
values = record { object = λ fields. object (fields_of fields); of_str = text; of_f64 = num }

abbrev reader : Reader Value ℕ
reader = record { index = index; as_str = as_str; as_f64 = as_u64 }

member-lookup :
    (fields : List (String × Value)) (k : String) (v : Value)
    → lookup fields k ≡ some v
    → member (fields_of fields) k ≡ v
unfolding lookup
member-lookup [] k v h = cc
member-lookup ((l, w) ∷ rest) k v h = ground (arith, member-lookup rest k v)

reads : IsReaderOf (λ _. Unit {0}) reader values
reads = record { member = member-lookup; text = λ s. refl; number = λ x finite. refl }

abbrev client : String
client = "client"

abbrev raised : AlertEvent ℕ
raised = record {
  rule_name = "cpu";
  metric = "cpu_usage";
  op = ">";
  value = 95;
  threshold = 90;
  state = firing;
}

notify-Posted_example :
    Posted reader client
      (some "http://hook")
      raised
      (notify values (Notify.new client (some "http://hook")) raised)
notify-Posted_example =
    notify-Posted (λ _. Unit {0}) reader values reads client (some "http://hook") raised tt tt

abbrev smart_config : WorkerConfig
smart_config = record loop_config { collect_smart = true }

loop_after-IsGated_example : IsGated smart_config (
    loop_after json smart_config 1_000
      (Engine.new [])
      empty_world
      (ticked (tick 1_000 5) ∷ refresh_ended smartctl ∷ smart_ticked ∷ []))
loop_after-IsGated_example =
    loop_after-IsGated json smart_config 1_000 (Engine.new []) empty_world
      (ticked (tick 1_000 5) ∷ refresh_ended smartctl ∷ smart_ticked ∷ [])
