-- ===== src/Host/Storage.antt =====
-- `get_storage_stats` of src/sysinfo_repo/collectors.rs.
use homeserver_rust.Prelude.{ℕ, ◌-◌, ◌*◌, ◌%◌, ◌^◌, List, Option, some, String, map, unwrap_or}
use homeserver_rust.Prelude.Entries.{lookup}
use homeserver_rust.Prelude.Options.{◌>>=◌}
use homeserver_rust.Float.{Float}
use homeserver_rust.Models.{StorageStats, PartitionStat, DiskDeviceStat}
use homeserver_rust.Text.Search.{trim_dev}
use homeserver_rust.Host.Disk.{DiskIoRaw, read_diskstats_linux, read_disk_model_linux}
use homeserver_rust.Host.Collectors.{usage_percent_of}

-- What sysinfo tells of a mounted file system.
pub record DiskReading : Type 0 where
  pub mount : String
  pub name : String
  pub file_system : String
  pub total_space : ℕ
  pub available_space : ℕ

abbrev pub no_io : DiskIoRaw
no_io = record {
  reads_completed = 0;
  sectors_read = 0;
  writes_completed = 0;
  sectors_written = 0;
  io_time_ms = 0;
}

-- Sectors of 512 bytes, on 64 bits.
unfoldable pub device_of :
    (String → Option String) → List (String × DiskIoRaw) → DiskReading → DiskDeviceStat
unfolding trim_dev lookup read_disk_model_linux
device_of files diskstats d =
    let dev_name = trim_dev d.name in
    let io = unwrap_or (lookup diskstats dev_name) no_io in
    record {
      name = d.name;
      model = read_disk_model_linux files dev_name;
      size = d.total_space;
      read_bytes = io.sectors_read * 512 % 2 ^ 64;
      write_bytes = io.sectors_written * 512 % 2 ^ 64;
      io_time_ms = io.io_time_ms;
      iops_read = io.reads_completed;
      iops_write = io.writes_completed;
    }

module _ {F : Type 0} ⦃f : Float F⦄ where
  unfoldable pub partition_of : DiskReading → PartitionStat F
  unfolding usage_percent_of
  partition_of d =
      let used = d.total_space - d.available_space in
      record {
        mount = d.mount;
        name = d.name;
        type_ = d.file_system;
        total_space = d.total_space;
        used_space = used;
        available_space = d.available_space;
        usage_percent = usage_percent_of used d.total_space;
      }

  unfoldable pub get_storage_stats :
      (String → Option String) → Option (List DiskReading) → Option (StorageStats F)
  unfolding partition_of device_of read_diskstats_linux
  get_storage_stats files locked = do
    disks ← locked
    let diskstats = read_diskstats_linux files
    some (record {
      partitions = map partition_of disks;
      disks = map (device_of files diskstats) disks;
    })
