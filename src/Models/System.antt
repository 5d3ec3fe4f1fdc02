-- ===== src/Models/System.antt =====
-- src/models/system.rs and aggregation.rs: host metrics, snapshots and aggregated rows.
use homeserver_rust.Prelude.{ℕ, String, List, [], Option, none, some}
use homeserver_rust.Prelude.Int.{ℤ}
use homeserver_rust.Float.{Float}
use homeserver_rust.Models.Parts.{ContainerStats, GpuStats, NetworkStats, SmartHealth, StorageStats}

pub record CpuStats (F : Type 0) : Type 0 where
  pub model : String
  pub physical_cores : ℕ
  pub logical_cores : ℕ
  pub usage_percent : F
  pub temperature : F
  pub core_usages : List F

pub record RamStats (F : Type 0) : Type 0 where
  pub total : ℕ
  pub used : ℕ
  pub available : ℕ
  pub usage_percent : F
  pub swap_total : ℕ
  pub swap_used : ℕ
  pub swap_free : ℕ

pub record SystemInfo : Type 0 where
  pub os_family : String
  pub os_manufacturer : String
  pub os_version : String
  pub system_manufacturer : String
  pub system_model : String
  pub processor_name : String

pub record SystemStatsDynamic (F : Type 0) : Type 0 where
  pub uptime_secs : ℕ
  pub process_count : ℕ
  pub thread_count : ℕ
  pub load_avg_1 : F
  pub load_avg_5 : F
  pub load_avg_15 : F

pub record SystemStats (F : Type 0) : Type 0 where
  pub os_family : String
  pub os_manufacturer : String
  pub os_version : String
  pub system_manufacturer : String
  pub system_model : String
  pub processor_name : String
  pub uptime_secs : ℕ
  pub process_count : ℕ
  pub thread_count : ℕ
  pub load_avg_1 : F
  pub load_avg_5 : F
  pub load_avg_15 : F

pub record FullSystemSnapshot (F : Type 0) : Type 0 where
  pub timestamp : ℕ
  pub cpu : CpuStats F
  pub ram : RamStats F
  pub containers : List (ContainerStats F)
  pub storage : StorageStats F
  pub network : NetworkStats F
  pub system : SystemStatsDynamic F
  pub gpus : List (GpuStats F)
  pub smart : List SmartHealth

-- With the static and the dynamic system information merged, for display.
pub record FullSystemSnapshotDisplay (F : Type 0) : Type 0 where
  pub timestamp : ℕ
  pub cpu : CpuStats F
  pub ram : RamStats F
  pub containers : List (ContainerStats F)
  pub storage : StorageStats F
  pub network : NetworkStats F
  pub system : SystemStats F
  pub gpus : List (GpuStats F)
  pub smart : List SmartHealth

pub record AggregatedSnapshot (F : Type 0) : Type 0 where
  pub created_at : ℤ
  pub resolution_seconds : ℕ
  pub cpu_load_avg : F
  pub cpu_load_min : F
  pub cpu_load_max : F
  pub memory_used_avg : ℤ
  pub memory_used_min : ℤ
  pub memory_used_max : ℤ
  pub cpu : CpuStats F
  pub ram : RamStats F
  pub containers : List (ContainerStats F)
  pub storage : StorageStats F
  pub network : NetworkStats F
  pub system : SystemStatsDynamic F
  pub gpus : List (GpuStats F)
  pub smart : List SmartHealth

module _ {F : Type 0} ⦃f : Float F⦄ where
  -- `CpuStats::default()` with its usage set.
  abbrev pub cpu_with_usage : F → CpuStats F
  cpu_with_usage usage = record {
    model = "";
    physical_cores = 0;
    logical_cores = 0;
    usage_percent = usage;
    temperature = f.of_ℕ 0;
    core_usages = [];
  }

  -- `RamStats::default()` with its used memory set.
  abbrev pub ram_with_used : ℕ → RamStats F
  ram_with_used used = record {
    total = 0;
    used = used;
    available = 0;
    usage_percent = f.of_ℕ 0;
    swap_total = 0;
    swap_used = 0;
    swap_free = 0;
  }

  -- `SystemStatsDynamic::default()`.
  abbrev pub system_default : SystemStatsDynamic F
  system_default = record {
    uptime_secs = 0;
    process_count = 0;
    thread_count = 0;
    load_avg_1 = f.of_ℕ 0;
    load_avg_5 = f.of_ℕ 0;
    load_avg_15 = f.of_ℕ 0;
  }

abbrev no_info : SystemInfo
no_info = record {
  os_family = "";
  os_manufacturer = "";
  os_version = "";
  system_manufacturer = "";
  system_model = "";
  processor_name = "";
}

identity_of : Option SystemInfo → SystemInfo
identity_of none = no_info
identity_of (some i) = i

unfoldable pub merge_system_info :
    {F : Type 0} → Option SystemInfo → SystemStatsDynamic F → SystemStats F
unfolding identity_of
merge_system_info info dynamic =
    let i = identity_of info in
    record {
      os_family = i.os_family;
      os_manufacturer = i.os_manufacturer;
      os_version = i.os_version;
      system_manufacturer = i.system_manufacturer;
      system_model = i.system_model;
      processor_name = i.processor_name;
      uptime_secs = dynamic.uptime_secs;
      process_count = dynamic.process_count;
      thread_count = dynamic.thread_count;
      load_avg_1 = dynamic.load_avg_1;
      load_avg_5 = dynamic.load_avg_5;
      load_avg_15 = dynamic.load_avg_15;
    }
