-- ===== src/Host/Collectors.antt =====
-- The collectors of src/sysinfo_repo/mod.rs and collectors.rs. What the crate sysinfo reads is an
-- argument; an `Instant` is a number of nanoseconds, and `as_secs` is `Duration::as_secs_f64`. A lock
-- that is poisoned gives an error, here `none`.
pub mod Gating
use homeserver_rust.Prelude.{
  ◌==◌, ◌&&◌, ℕ, suc, ◌+◌, ◌-◌, ◌*◌, ◌%◌, ◌^◌, Bool, true, false, List, [], ◌∷◌, Option, none, some,
  String, map, filter, length, unwrap_or, min, ltb, leb, ◌=s=◌, if◌then◌else◌,
}
use homeserver_rust.Prelude.Entries.{lookup}
use homeserver_rust.Prelude.Options.{◌>>=◌}
use homeserver_rust.Float.{Float}
use homeserver_rust.Models.{
  CpuStats, RamStats, StorageStats, PartitionStat, DiskDeviceStat, NetworkStats, InterfaceStat,
  SystemInfo, SystemStatsDynamic,
}
use homeserver_rust.Text.Search.{strip_prefix}
use homeserver_rust.Host.Disk.{DiskIoRaw, read_diskstats_linux, read_disk_model_linux}
use homeserver_rust.Host.Linux.{
  model_of, or_else, read_cpu_model_linux, read_os_manufacturer_linux, read_sys_vendor_linux,
  read_interface_operstate, get_interface_speed, read_loadavg_linux, read_proc_entity_counts,
  read_cpu_temperature_linux,
}

-- `usage` is what a refresh at this moment would give; the locks tell whether they can be taken.
pub record CpuReading (F : Type 0) : Type 0 where
  pub sys_lock : Bool
  pub last_lock : Bool
  pub now : ℕ
  pub usage : F
  pub physical : Option ℕ
  pub cpus : List (String × F)

pub record MemoryReading : Type 0 where
  pub total : ℕ
  pub available : ℕ
  pub swap_total : ℕ
  pub swap_used : ℕ
  pub swap_free : ℕ

abbrev pub or_text : Option String → Option String → Option String
or_text none later = later
or_text (some s) later = some s

-- The name of the first processor, if it says something.
abbrev pub first_cpu : {F : Type 0} → List (String × F) → Option String
first_cpu [] = none
first_cpu ((name, usage) ∷ rest) = model_of name

abbrev pub or_counts : Option (ℕ × ℕ) → Option (ℕ × ℕ) → Option (ℕ × ℕ)
or_counts (some counts) counted = some counts
or_counts none counted = counted

module _ {F : Type 0} ⦃f : Float F⦄ where
  -- `clamp(0.0, 100.0)`
  unfoldable pub clamp_percent : F → F
  clamp_percent x =
      if f.lt x (f.of_ℕ 0) then f.of_ℕ 0 else if f.lt (f.of_ℕ 100) x then f.of_ℕ 100 else x

  unfoldable pub usage_percent_of : ℕ → ℕ → F
  usage_percent_of used total =
      if ltb 0 total then f.mul (f.div (f.of_ℕ used) (f.of_ℕ total)) (f.of_ℕ 100) else f.of_ℕ 0

  -- The usage that is reported, and what is kept for the next call. Between refreshes there is an
  -- interval, a constant of sysinfo.
  unfoldable pub gated_usage : ℕ → Option (ℕ × F) → CpuReading F → F × Option (ℕ × F)
  gated_usage minimum_interval last r =
      if r.last_lock
      then elim last [
        | some (prev_ts, prev_usage) ↦
            if leb minimum_interval (r.now - prev_ts)
            then (r.usage, some (r.now, r.usage))
            else (prev_usage, some (prev_ts, prev_usage))
        | none ↦ (f.of_ℕ 0, some (r.now, f.of_ℕ 0))
      ]
      else (f.of_ℕ 0, last)

  unfoldable pub get_cpu_stats :
      ℕ
      → (ℕ → String)
      → (String → Option String)
      → Option (ℕ × F)
      → CpuReading F
      → Option (CpuStats F) × Option (ℕ × F)
  unfolding gated_usage clamp_percent read_cpu_model_linux read_cpu_temperature_linux
  get_cpu_stats minimum_interval print files last r =
      let (usage, kept) = gated_usage minimum_interval last r in
      if r.sys_lock
      then (
        some (record {
          model = unwrap_or (or_text (read_cpu_model_linux files) (first_cpu r.cpus)) "Unknown";
          physical_cores = unwrap_or r.physical 0 % 2 ^ 32;
          logical_cores = length r.cpus % 2 ^ 32;
          usage_percent = clamp_percent usage;
          temperature = unwrap_or (read_cpu_temperature_linux print files) (f.of_ℕ 0);
          core_usages = map (λ c. clamp_percent c.1) r.cpus;
        }),
        kept,
      )
      else (none, last)

  unfoldable pub get_ram_stats : Option MemoryReading → Option (RamStats F)
  unfolding usage_percent_of
  get_ram_stats locked = do
    m ← locked
    let used = m.total - m.available
    some (record {
      total = m.total;
      used = used;
      available = m.available;
      usage_percent = usage_percent_of used m.total;
      swap_total = m.swap_total;
      swap_used = m.swap_used;
      swap_free = m.swap_free;
    })

  -- `counted` is the count by sysinfo's own list of processes, for when /proc cannot be read.
  unfoldable pub get_system_stats :
      (String → Option F)
      → (String → Option String)
      → Option (List String)
      → ℕ
      → Option (ℕ × ℕ)
      → Option (SystemStatsDynamic F)
  unfolding read_loadavg_linux read_proc_entity_counts
  get_system_stats parse_f64 files proc_names uptime counted = do
    let (one, five, fifteen) =
        unwrap_or (read_loadavg_linux parse_f64 files) (f.of_ℕ 0, f.of_ℕ 0, f.of_ℕ 0)
    counts ← or_counts (read_proc_entity_counts files proc_names) counted
    some (record {
      uptime_secs = uptime;
      process_count = counts.0;
      thread_count = counts.1;
      load_avg_1 = one;
      load_avg_5 = five;
      load_avg_15 = fifteen;
    })

-- What sysinfo tells of the system.
pub record SystemReading : Type 0 where
  pub sys_lock : Bool
  pub name : Option String
  pub os : String
  pub os_version : Option String
  pub host_name : Option String
  pub cpu : Option String

unfoldable pub get_system_info : (String → Option String) → SystemReading → Option SystemInfo
unfolding read_cpu_model_linux read_os_manufacturer_linux read_sys_vendor_linux
get_system_info files r =
    if r.sys_lock
    then some (record {
      os_family = unwrap_or r.name r.os;
      os_manufacturer = unwrap_or (read_os_manufacturer_linux files) "";
      os_version = unwrap_or r.os_version "";
      system_manufacturer = unwrap_or (read_sys_vendor_linux files) "";
      system_model = unwrap_or r.host_name "";
      processor_name =
          unwrap_or (or_text (read_cpu_model_linux files) (r.cpu >>= model_of)) "Unknown";
    })
    else none
