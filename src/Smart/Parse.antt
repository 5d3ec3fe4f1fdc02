-- ===== src/Smart/Parse.antt =====
-- src/smart_repo/parse.rs: what is read from the JSON that `smartctl` prints.
-- `serde_json::Value` is a parameter with the operations that the source uses of it.
use homeserver_rust.Prelude.{
  ℕ, ◌-◌, Bool, false, ◌||◌, min, String, List, [], ◌∷◌, Option, none, some, unwrap_or, ◌==◌,
  if◌then◌else◌,
}
use homeserver_rust.Prelude.Int.{ℤ}
use homeserver_rust.Prelude.Options.{◌>>=◌}
use homeserver_rust.Models.{SmartHealth}

-- `serde_json`: the parser, `v[key]`, and the readings of a value; `none` is a value of another kind.
pub record Json (V : Type 0) : Type 0 where
  pub from_str : String → Option V
  pub index : V → String → V
  pub as_array : V → Option (List V)
  pub as_str : V → Option String
  pub as_bool : V → Option Bool
  pub as_i64 : V → Option ℤ
  pub as_u64 : V → Option ℕ

-- `opt == Some(id)`
abbrev pub is_some_of : ℕ → Option ℕ → Bool
is_some_of id none = false
is_some_of id (some n) = n == id

-- `iter().find`
abbrev pub find_first : {A : Type 0} → (A → Bool) → List A → Option A
find_first p [] = none
find_first p (x ∷ xs) = let rest = find_first p xs in if p x then some x else rest

-- `.and_then(|a| a["value"].as_u64()).map(…)`, of the attribute that was found
unfoldable pub worn : Option ℕ → Option ℕ
worn none = none
worn (some life_remaining) = some (min (100 - life_remaining) 100)

-- `if let Some(used) = … { return … }`, and the value of what follows it
unfoldable pub nvme_wear_or : Option ℕ → Option ℕ → Option ℕ
nvme_wear_or (some used) rest = some (min used 100)
nvme_wear_or none rest = rest

-- A round of `filter_map`.
abbrev pub cons_some : {A : Type 0} → Option A → List A → List A
cons_some none rest = rest
cons_some (some x) rest = x ∷ rest

module _ {V : Type 0} (json : Json V) where
  -- `filter_map(|d| d["name"].as_str())`
  unfoldable pub device_names : List V → List String
  device_names [] = []
  device_names (d ∷ ds) = cons_some (json.as_str (json.index d "name")) (device_names ds)

  unfoldable pub parse_scan_devices : String → List String
  unfolding device_names
  parse_scan_devices text = elim (json.from_str text) [
    | none ↦ []
    | some v ↦ elim (json.as_array (json.index v "devices")) [
      | none ↦ []
      | some arr ↦ device_names arr
    ]
  ]

  -- `v["ata_smart_attributes"]["table"].as_array()`
  abbrev pub attribute_table : V → Option (List V)
  attribute_table v = json.as_array (json.index (json.index v "ata_smart_attributes") "table")

  unfoldable pub ata_attr_raw : V → ℕ → Option ℕ
  ata_attr_raw v id = do
    table ← attribute_table v
    a ← find_first (λ a. is_some_of id (json.as_u64 (json.index a "id"))) table
    json.as_u64 (json.index (json.index a "raw") "value")

  -- `matches!(a["id"].as_u64(), Some(177) | Some(231) | Some(233))`
  unfoldable pub is_wear_attr : V → Bool
  is_wear_attr a =
      let id = json.as_u64 (json.index a "id") in
      is_some_of 177 id || is_some_of 231 id || is_some_of 233 id

  -- What follows the `if let Some(used)`.
  unfoldable pub ata_wear : V → Option ℕ
  unfolding worn is_wear_attr
  ata_wear v = do
    table ← attribute_table v
    worn (do a ← find_first is_wear_attr table; json.as_u64 (json.index a "value"))

  unfoldable pub wear_level : V → Option ℕ
  unfolding nvme_wear_or ata_wear
  wear_level v =
      nvme_wear_or
        (json.as_u64
          (json.index (json.index v "nvme_smart_health_information_log") "percentage_used"))
        (ata_wear v)

  unfoldable pub health_of : V → String → SmartHealth
  unfolding ata_attr_raw wear_level
  health_of v device = record {
    device = device;
    model = unwrap_or (json.as_str (json.index v "model_name")) "";
    health_passed =
        unwrap_or (json.as_bool (json.index (json.index v "smart_status") "passed")) false;
    temperature_c = json.as_i64 (json.index (json.index v "temperature") "current");
    power_on_hours = json.as_u64 (json.index (json.index v "power_on_time") "hours");
    reallocated_sectors = ata_attr_raw v 5;
    wear_level_percent = wear_level v;
  }

  unfoldable pub parse_smartctl_json : String → String → Option SmartHealth
  unfolding health_of
  parse_smartctl_json text device = do v ← json.from_str text; some (health_of v device)
