-- ===== src/Models/Parts.antt =====
-- src/models/container.rs, gpu.rs, network.rs, smart.rs and storage.rs. `F` stands for `f64`.
use homeserver_rust.Prelude.{ℕ, Bool, String, List, Option}
use homeserver_rust.Prelude.Int.{ℤ}

pub data ContainerState : Type 0 where
  running exited paused restarting unknown : ContainerState

pub record ContainerStats (F : Type 0) : Type 0 where
  pub id : String
  pub name : String
  pub cpu_percent : F
  pub memory_usage_bytes : ℕ
  pub memory_limit_bytes : ℕ
  pub state : ContainerState
  pub network_rx_bytes : ℕ
  pub network_tx_bytes : ℕ
  pub network_rx_packets : ℕ
  pub network_tx_packets : ℕ
  pub network_rx_errors : ℕ
  pub network_tx_errors : ℕ
  pub network_rx_dropped : ℕ
  pub network_tx_dropped : ℕ
  pub block_read_bytes : ℕ
  pub block_write_bytes : ℕ
  pub block_read_ops : ℕ
  pub block_write_ops : ℕ
  pub pids : ℕ
  pub pids_limit : ℕ
  pub cpu_throttled : Bool
  pub cpu_throttled_periods : ℕ
  pub cpu_throttled_time_ns : ℕ
  pub cpu_kernel_percent : F
  pub cpu_user_percent : F
  pub online_cpus : ℕ
  pub memory_max_usage_bytes : ℕ

pub record GpuStats (F : Type 0) : Type 0 where
  pub index : ℕ
  pub vendor : String
  pub name : String
  pub utilization_percent : F
  pub memory_used_bytes : ℕ
  pub memory_total_bytes : ℕ
  pub temperature_c : F
  pub power_watts : Option F
  pub fan_percent : Option F

pub record InterfaceStat (F : Type 0) : Type 0 where
  pub name : String
  pub display_name : String
  pub mac_address : String
  pub ipv4 : List String
  pub ipv6 : List String
  pub bytes_sent : ℕ
  pub bytes_recv : ℕ
  pub packets_sent : ℕ
  pub packets_recv : ℕ
  pub speed : ℕ
  pub received_bytes_per_sec : F
  pub transmitted_bytes_per_sec : F
  pub is_up : Bool

pub record NetworkStats (F : Type 0) : Type 0 where
  pub interfaces : List (InterfaceStat F)

pub record SmartHealth : Type 0 where
  pub device : String
  pub model : String
  pub health_passed : Bool
  pub temperature_c : Option ℤ
  pub power_on_hours : Option ℕ
  pub reallocated_sectors : Option ℕ
  pub wear_level_percent : Option ℕ

pub record PartitionStat (F : Type 0) : Type 0 where
  pub mount : String
  pub name : String
  pub type_ : String
  pub total_space : ℕ
  pub used_space : ℕ
  pub available_space : ℕ
  pub usage_percent : F

pub record DiskDeviceStat : Type 0 where
  pub name : String
  pub model : String
  pub size : ℕ
  pub read_bytes : ℕ
  pub write_bytes : ℕ
  pub io_time_ms : ℕ
  pub iops_read : ℕ
  pub iops_write : ℕ

pub record StorageStats (F : Type 0) : Type 0 where
  pub partitions : List (PartitionStat F)
  pub disks : List DiskDeviceStat
