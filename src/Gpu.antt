-- ===== src/Gpu.antt =====
-- src/gpu_repo/sysfs.rs: the graphics cards of AMD and Intel. Files are a function from paths, and so
-- are the first entry of a directory, the names in /sys/class/drm, `f64::parse` and the printing of a
-- number. NVML is in Nvidia.
pub mod Collects
pub mod Nvidia
use Prim.Native.String.{compare}
use text.Mathlib.Text.{is_le, is_lt}
use homeserver_rust.Prelude.{
  ℕ, ◌^◌, Bool, true, false, ◌&&◌, ◌||◌, List, [], ◌∷◌, ◌++◌, Option, none, some, String, unwrap_or,
  leb, ◌=s=◌, if◌then◌else◌,
}
use homeserver_rust.Prelude.Options.{◌>>=◌}
use homeserver_rust.Float.{Float}
use homeserver_rust.Models.{GpuStats}
use homeserver_rust.Gpu.Nvidia.{Nvml}
use homeserver_rust.Gpu.Nvidia
use homeserver_rust.Text.{trim, append, eq_ignore_ascii_case}
use homeserver_rust.Text.Search.{strip_prefix}
use homeserver_rust.Text.Decimal.{parse_u64, parse_u32, parse_unsigned}
use homeserver_rust.Host.Disk.{is_number}
use homeserver_rust.Host.Linux.{parse_hwmon_temp}
use homeserver_rust.Host.Collectors.{clamp_percent}

unfoldable pub parse_vendor_id : String → Option String
unfolding trim eq_ignore_ascii_case
parse_vendor_id content =
    let id = trim content in
    if eq_ignore_ascii_case id "0x1002"
    then some "amd"
    else if eq_ignore_ascii_case id "0x8086"
    then some "intel"
    else none

unfoldable pub is_card_node : String → Bool
unfolding strip_prefix
is_card_node name = elim (strip_prefix "card" name) [ none ↦ false | some rest ↦ is_number rest ]

abbrev pub card_index : String → ℕ
card_index name = unwrap_or (strip_prefix "card" name >>= parse_u32) 0

module _ {F : Type 0} ⦃f : Float F⦄ where
  unfoldable pub parse_busy_percent : (String → Option F) → String → Option F
  unfolding trim clamp_percent
  parse_busy_percent parse_f64 content = do v ← parse_f64 (trim content); some (clamp_percent v)

  unfoldable pub parse_power_microwatts : String → Option F
  unfolding trim parse_unsigned
  parse_power_microwatts content = do
    uw ← parse_u64 (trim content)
    some (f.div (f.of_ℕ uw) (f.of_ℕ 1_000_000))

  unfoldable pub parse_pwm_percent : String → Option F
  unfolding trim parse_unsigned clamp_percent
  parse_pwm_percent content = do
    v ← parse_u32 (trim content)
    some (clamp_percent (f.mul (f.div (f.of_ℕ v) (f.of_ℕ 255)) (f.of_ℕ 100)))

  module _ (parse_f64 : String → Option F) (print : ℕ → String) (files : String → Option String)
      (first_entry : String → Option String) where
    abbrev pub hwmon_of : Option String → F × Option F × Option F
    hwmon_of none = (f.of_ℕ 0, none, none)
    hwmon_of (some base) = (
      unwrap_or (files (append base "/temp1_input") >>= parse_hwmon_temp) (f.of_ℕ 0),
      files (append base "/power1_average") >>= parse_power_microwatts,
      files (append base "/pwm1") >>= parse_pwm_percent,
    )

    unfoldable pub read_hwmon : String → F × Option F × Option F
    unfolding append parse_power_microwatts parse_pwm_percent parse_hwmon_temp
    read_hwmon dev = hwmon_of (first_entry (append dev "/hwmon"))

    abbrev pub memory_of : Option String → ℕ
    memory_of content = unwrap_or (content >>= λ c. parse_u64 (trim c)) 0

    unfoldable pub gpu_of : String → String → String → GpuStats F
    unfolding read_hwmon parse_busy_percent append parse_unsigned trim strip_prefix
    gpu_of name dev vendor =
        let (temperature, power, fan) = read_hwmon dev in
        let index = card_index name in
        record {
          index = index;
          vendor = vendor;
          name = append vendor (append " GPU " (print index));
          utilization_percent =
              unwrap_or (files (append dev "/gpu_busy_percent") >>= parse_busy_percent parse_f64)
                (f.of_ℕ 0);
          memory_used_bytes = memory_of (files (append dev "/mem_info_vram_used"));
          memory_total_bytes = memory_of (files (append dev "/mem_info_vram_total"));
          temperature_c = temperature;
          power_watts = power;
          fan_percent = fan;
        }

    -- One turn of the loop over the entries.
    unfoldable pub card_of : String → Option (GpuStats F)
    unfolding is_card_node parse_vendor_id gpu_of append
    card_of name =
        let dev = append "/sys/class/drm/" (append name "/device") in
        if is_card_node name
        then (files (append dev "/vendor") >>= parse_vendor_id >>= λ vendor.
            some (gpu_of name dev vendor))
        else none

    abbrev pub push_card : Option (GpuStats F) → List (GpuStats F) → List (GpuStats F)
    push_card none gpus = gpus
    push_card (some gpu) gpus = gpu ∷ gpus

    unfoldable pub cards : List String → List (GpuStats F)
    unfolding card_of
    cards [] = []
    cards (name ∷ rest) = push_card (card_of name) (cards rest)

    -- By vendor, and then by index.
    abbrev pub gpu_le : GpuStats F → GpuStats F → Bool
    gpu_le a b =
        is_lt (compare a.vendor b.vendor) || ((a.vendor =s= b.vendor) && leb a.index b.index)

    -- `sort_by`, a stable sort
    unfoldable pub insert_gpu : GpuStats F → List (GpuStats F) → List (GpuStats F)
    insert_gpu gpu [] = gpu ∷ []
    insert_gpu gpu (g ∷ rest) =
        let after = insert_gpu gpu rest in if gpu_le gpu g then gpu ∷ g ∷ rest else g ∷ after

    unfoldable pub sort_gpus : List (GpuStats F) → List (GpuStats F)
    unfolding insert_gpu
    sort_gpus [] = []
    sort_gpus (gpu ∷ rest) = insert_gpu gpu (sort_gpus rest)

    -- `none` is a directory that cannot be read.
    unfoldable pub collect_linux : Option (List String) → List (GpuStats F)
    unfolding cards sort_gpus
    collect_linux none = []
    collect_linux (some names) = sort_gpus (cards names)

    -- `GpuRepo::collect`; `none` without NVML.
    unfoldable pub collect : Option Nvml → Option (List String) → List (GpuStats F)
    unfolding Nvidia.collect collect_linux
    collect nvml names = Nvidia.nvml_cards nvml ++ collect_linux names
