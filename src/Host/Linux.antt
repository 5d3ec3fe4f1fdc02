-- ===== src/Host/Linux.antt =====
-- src/sysinfo_repo/linux/mod.rs: the texts of /proc, /sys and /etc/os-release. `f64::parse` and the
-- printing of a number in a path are parameters, and so is the list of names in /proc.
use homeserver_rust.Prelude.{
  ℕ, suc, zero, ◌+◌, ◌-◌, ◌*◌, ◌%◌, ◌^◌, Bool, true, not, ◌&&◌, ◌||◌, List, [], ◌∷◌, Option, none,
  some, String, unwrap_or, min, get_elem?, ◌=s=◌, if◌then◌else◌,
}
use homeserver_rust.Prelude.Int.{ℤ, pos_part}
use homeserver_rust.Prelude.Options.{◌>>=◌}
use homeserver_rust.Float.{Float}
use homeserver_rust.Text.{split_whitespace, trim, append}
use homeserver_rust.Text.Search.{
  is_empty_text, strip_prefix, starts_with, split_once, after_colon_space, trim_quotes, lines,
}
use homeserver_rust.Text.Decimal.{parse_u32, parse_i64, parse_unsigned}
use homeserver_rust.Host.Disk.{is_number, non_empty}

-- `parse_loadavg_total_tasks`
unfoldable pub parse_loadavg_total_tasks : String → Option ℕ
unfolding split_whitespace split_once parse_unsigned
parse_loadavg_total_tasks content = do
  field ← get_elem? (split_whitespace content) 3
  halves ← split_once 0x2f field
  parse_u32 halves.1

-- `parse_operstate`
unfoldable pub parse_operstate : String → Bool
unfolding trim
parse_operstate content = let s = trim content in (s =s= "up") || (s =s= "unknown")

-- A name that says something.
abbrev pub model_of : String → Option String
model_of s = if not (is_empty_text s) && not (s =s= "cpu0") then some s else none

-- The first line that begins with the key decides.
unfoldable pub model_name_in : List String → Option String
unfolding starts_with after_colon_space trim
model_name_in [] = none
model_name_in (line ∷ rest) =
    let later = model_name_in rest in
    let here = after_colon_space line >>= λ s. model_of (trim s) in
    if starts_with "model name" line then here else later

abbrev pub or_none : String → Option String
or_none s = if is_empty_text s then none else some s

-- `some none` is a line with an empty value, which ends the search.
unfoldable pub value_in : String → List String → Option (Option String)
unfolding strip_prefix trim_quotes
value_in key [] = none
value_in key (line ∷ rest) =
    let later = value_in key rest in
    elim (strip_prefix key line) [ none ↦ later | some v ↦ some (or_none (trim_quotes v)) ]

unfoldable pub os_name_in : List String → Option String
unfolding value_in
os_name_in ls = elim (value_in "PRETTY_NAME=" ls) [
  | some found ↦ found
  | none ↦ unwrap_or (value_in "NAME=" ls) none
]

abbrev pub speed_of : Option ℤ → ℕ
speed_of none = 0
speed_of (some mbps) = (pos_part mbps * 1_000_000) % 2 ^ 64

-- `processes.saturating_add(1)` for each name of digits.
unfoldable pub count_processes : ℕ → List String → ℕ
count_processes n [] = n
count_processes n (name ∷ rest) =
    count_processes (if is_number name then min (n + 1) (2 ^ 32 - 1) else n) rest

abbrev pub is_cpu_sensor : String → Bool
is_cpu_sensor name = (name =s= "coretemp") || (name =s= "k10temp") || (name =s= "zenpower")

module _ {F : Type 0} ⦃f : Float F⦄ where
  -- Thousandths of a degree.
  unfoldable pub parse_hwmon_temp : String → Option F
  unfolding trim parse_i64
  parse_hwmon_temp content = do
    millideg ← parse_i64 (trim content)
    some (f.div (f.of_ℤ millideg) (f.of_ℕ 1_000))

  unfoldable pub parse_loadavg : (String → Option F) → String → Option (F × F × F)
  unfolding split_whitespace
  parse_loadavg parse_f64 content = do
    let parts = split_whitespace content
    w0 ← get_elem? parts 0
    one ← parse_f64 w0
    w1 ← get_elem? parts 1
    five ← parse_f64 w1
    w2 ← get_elem? parts 2
    fifteen ← parse_f64 w2
    some (one, five, fifteen)

  unfoldable pub read_loadavg_linux :
      (String → Option F) → (String → Option String) → Option (F × F × F)
  unfolding parse_loadavg
  read_loadavg_linux parse_f64 files = files "/proc/loadavg" >>= parse_loadavg parse_f64

  -- `for i in from..from + count`, to the first that gives a temperature.
  unfoldable pub first_temp : (ℕ → Option F) → ℕ → ℕ → Option F
  first_temp read from zero = none
  first_temp read from (suc count) = elim (read from) [
    | some t ↦ some t
    | none ↦ first_temp read (from + 1) count
  ]

  abbrev pub or_else : Option F → Option F → Option F
  or_else (some a) later = some a
  or_else none later = later

abbrev pub hwmon_path : (ℕ → String) → ℕ → String → String
hwmon_path print i leaf = append "/sys/class/hwmon/hwmon" (append (print i) leaf)

module _ {F : Type 0} ⦃f : Float F⦄ (print : ℕ → String) (files : String → Option String) where
  abbrev pub read_temp : String → Option F
  read_temp path = files path >>= parse_hwmon_temp

  abbrev pub named_temp : ℕ → Option F
  named_temp i = files (hwmon_path print i "/name") >>= λ name.
      if is_cpu_sensor (trim name) then read_temp (hwmon_path print i "/temp1_input") else none

  abbrev pub zone_temp : ℕ → Option F
  zone_temp i = read_temp (append "/sys/class/thermal/thermal_zone" (append (print i) "/temp"))

  unfoldable pub read_cpu_temperature_linux : Option F
  unfolding first_temp parse_hwmon_temp trim append
  read_cpu_temperature_linux = or_else (first_temp named_temp 0 16) (
      or_else (first_temp (λ i. read_temp (hwmon_path print i "/temp1_input")) 0 16)
        (first_temp zone_temp 0 8))

module _ (files : String → Option String) where
  unfoldable pub read_proc_entity_counts : Option (List String) → Option (ℕ × ℕ)
  unfolding parse_loadavg_total_tasks count_processes
  read_proc_entity_counts proc_names = do
    loadavg ← files "/proc/loadavg"
    threads ← parse_loadavg_total_tasks loadavg
    names ← proc_names
    some (count_processes 0 names, threads)

  unfoldable pub read_interface_operstate : String → Bool
  unfolding parse_operstate append
  read_interface_operstate name =
      elim (files (append "/sys/class/net/" (append name "/operstate"))) [
        | some c ↦ parse_operstate c
        | none ↦ true
      ]

  unfoldable pub read_cpu_model_linux : Option String
  unfolding model_name_in lines
  read_cpu_model_linux = files "/proc/cpuinfo" >>= λ content. model_name_in (lines content)

  unfoldable pub read_os_manufacturer_linux : Option String
  unfolding os_name_in lines
  read_os_manufacturer_linux = files "/etc/os-release" >>= λ content. os_name_in (lines content)

  unfoldable pub read_sys_vendor_linux : Option String
  unfolding non_empty
  read_sys_vendor_linux = non_empty (files "/sys/class/dmi/id/sys_vendor")

  -- Bits per second, of a speed above zero.
  unfoldable pub get_interface_speed : String → ℕ
  unfolding append trim parse_i64
  get_interface_speed name = speed_of (
      files (append "/sys/class/net/" (append name "/speed")) >>= λ content.
      parse_i64 (trim content))
