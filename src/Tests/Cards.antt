-- ===== src/Tests/Cards.antt =====
-- Two graphics cards under /sys/class/drm.
use mathlib.Core.List.{Perm}
use homeserver_rust.Prelude.{
  ℕ, zero, suc, ◌≡◌, refl, List, [], ◌∷◌, Option, none, some, String, All, map, ◌=s=◌,
  if◌then◌else◌,
}
use homeserver_rust.Text.{trim, trim_start, trim_end, is_whitespace, append, eq_ignore_ascii_case}
use homeserver_rust.Text.Search.{strip_prefix}
use homeserver_rust.Text.Decimal.{parse_unsigned, digits, digits_from}
use homeserver_rust.Gpu.{
  parse_vendor_id, is_card_node, read_hwmon, gpu_of, card_of, cards, insert_gpu, sort_gpus,
  collect_linux,
}
use homeserver_rust.Gpu.Collects.{IsKnown, InOrder, collect_linux-IsSorted}
use homeserver_rust.Gpu.Nvidia.{Device, Nvml, devices_from}
use homeserver_rust.Gpu.Nvidia
use homeserver_rust.Tests.Setup.{nat_float}

program : Unit {0}
unfolding trim trim_start trim_end is_whitespace append eq_ignore_ascii_case strip_prefix
    parse_unsigned digits digits_from parse_vendor_id is_card_node read_hwmon gpu_of card_of cards
    insert_gpu sort_gpus collect_linux
program = tt

abbrev no_number : String → Option ℕ
no_number s = none

abbrev print : ℕ → String
print n = "1"

abbrev files : String → Option String
files path =
    if path =s= "/sys/class/drm/card1/device/vendor"
    then some "0x8086"
    else if path =s= "/sys/class/drm/card0/device/vendor"
    then some " 0x1002"
    else none

abbrev no_entry : String → Option String
no_entry dir = none

abbrev names : List String
names = "card1" ∷ "card0-DP-1" ∷ "renderD128" ∷ "card0" ∷ "card2" ∷ []

vendors_in_order :
    map (λ g. g.vendor) (collect_linux no_number print files no_entry (some names))
    ≡ "amd" ∷ "intel" ∷ []
unfolding program
vendors_in_order = refl

collect_linux-IsSorted_example :
    Perm
      (collect_linux no_number print files no_entry (some names))
      (cards no_number print files no_entry names)
    × InOrder (collect_linux no_number print files no_entry (some names))
    × All
        (IsKnown no_number print files no_entry)
        (collect_linux no_number print files no_entry (some names))
collect_linux-IsSorted_example = collect_linux-IsSorted no_number print files no_entry names

-- NVML counts two devices, of which it opens the second, and knows only its name.
abbrev second_device : ℕ → Option Device
second_device zero = none
second_device (suc i) = some (record {
  name = some "RTX";
  utilization_rates = none;
  memory_info = none;
  temperature = none;
  power_usage = none;
  fan_speed = none;
})

one_device :
    map
      (λ g. g.index)
      (Nvidia.collect {F = ℕ} (record { device_count = some 2; device_by_index = second_device }))
    ≡ 1 ∷ []
unfolding Nvidia.collect
one_device = refl
