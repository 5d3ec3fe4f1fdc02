-- ===== src/History/Codec.antt =====
-- How snapshots become blobs and rows become snapshots: the serializing halves of
-- src/history_repo/raw.rs and agg_store.rs, and the helpers of history_merge.rs.
pub mod Encodes
pub mod Reads
use homeserver_rust.Prelude.{ℕ, List, [], ◌∷◌, Option, none, some, unwrap_or, ◌==◌, if◌then◌else◌}
use homeserver_rust.Prelude.Int.{to_u64, to_i64}
use homeserver_rust.Prelude.Result.{Result, ok, err}
use homeserver_rust.Float.{Float}
use homeserver_rust.Models.{
  ContainerStats, StorageStats, NetworkStats, SystemStatsDynamic, SystemStats, CpuStats, RamStats,
  GpuStats, SmartHealth, FullSystemSnapshot, AggregatedSnapshot, cpu_with_usage, ram_with_used,
  system_default,
}
use homeserver_rust.History.Blob.{
  Bytes, blob_version_1, blob_version_system_dynamic, with_version_prefix, blob_payload,
  blob_version,
}
use homeserver_rust.History.Db.{
  Blobs, RawRow, AggRow, Codec, Env, Exec, serialization, or_raise, pure, ◌>>=◌,
}

module _ {F A : Type 0} where
  -- `blob::with_version_prefix(version, wincode::serialize(a)?)`
  unfoldable pub encode : ℕ → Codec A → A → Exec F Bytes
  unfolding or_raise pure ◌>>=◌ with_version_prefix
  encode version c a = do
    payload ← or_raise serialization (c.serialize a)
    pure (with_version_prefix version payload)

-- `wincode::deserialize(blob::blob_payload(bytes, BLOB_VERSION)).unwrap_or_else(…)`
unfoldable pub decode_or : {A : Type 0} → Codec A → Bytes → A → A
unfolding blob_payload
decode_or c bytes default = unwrap_or (c.deserialize (blob_payload bytes blob_version_1)) default

-- The same for a column that may be NULL or empty.
unfoldable pub decode_optional : {A : Type 0} → Codec A → Option Bytes → A → A
unfolding decode_or
decode_optional c none default = default
decode_optional c (some []) default = default
decode_optional c (some (b ∷ bytes)) default = decode_or c (b ∷ bytes) default

unfoldable pub deserialize_smart_data : {F : Type 0} → Env F → Option Bytes → List SmartHealth
unfolding decode_optional
deserialize_smart_data env bytes = decode_optional env.smart bytes []

module _ {F : Type 0} ⦃f : Float F⦄ ⦃env : Env F⦄ where
  unfoldable pub deserialize_container_data : Bytes → List (ContainerStats F)
  unfolding decode_or
  deserialize_container_data bytes = decode_or env.containers bytes []

  unfoldable pub deserialize_storage_data : Bytes → StorageStats F
  unfolding decode_or
  deserialize_storage_data bytes =
      decode_or env.storage bytes (record { partitions = []; disks = [] })

  unfoldable pub deserialize_network_data : Bytes → NetworkStats F
  unfolding decode_or
  deserialize_network_data bytes = decode_or env.network bytes (record { interfaces = [] })

  unfoldable pub deserialize_gpu_data : Option Bytes → List (GpuStats F)
  unfolding decode_optional
  deserialize_gpu_data bytes = decode_optional env.gpus bytes []

  unfoldable pub deserialize_cpu_data : Option Bytes → F → CpuStats F
  unfolding decode_optional
  deserialize_cpu_data bytes fallback_usage_percent =
      decode_optional env.cpu bytes (cpu_with_usage fallback_usage_percent)

  unfoldable pub deserialize_ram_data : Option Bytes → ℕ → RamStats F
  unfolding decode_optional
  deserialize_ram_data bytes fallback_used =
      decode_optional env.ram bytes (ram_with_used fallback_used)

  -- Version 2 holds the dynamic metrics alone; older blobs hold all, without load averages.
  legacy_system : Option (SystemStats F) → SystemStatsDynamic F
  legacy_system none = system_default
  legacy_system (some full) = record {
    uptime_secs = full.uptime_secs;
    process_count = full.process_count;
    thread_count = full.thread_count;
    load_avg_1 = f.of_ℕ 0;
    load_avg_5 = f.of_ℕ 0;
    load_avg_15 = f.of_ℕ 0;
  }

  unfoldable pub deserialize_system_data : Bytes → SystemStatsDynamic F
  unfolding legacy_system blob_payload blob_version
  deserialize_system_data bytes =
      if blob_version bytes == blob_version_system_dynamic
      then unwrap_or (env.system.deserialize (blob_payload bytes blob_version_system_dynamic))
          system_default
      else legacy_system (env.system_full.deserialize (blob_payload bytes blob_version_1))

  unfoldable pub parse_snapshot_row : RawRow F → FullSystemSnapshot F
  unfolding deserialize_container_data deserialize_storage_data deserialize_network_data
      deserialize_gpu_data deserialize_smart_data deserialize_cpu_data deserialize_ram_data
      deserialize_system_data to_u64
  parse_snapshot_row row = record {
    timestamp = to_u64 row.created_at;
    cpu = deserialize_cpu_data row.blobs.cpu_data row.cpu_load;
    ram = deserialize_ram_data row.blobs.ram_data (to_u64 row.memory_used);
    containers = deserialize_container_data row.blobs.container_data;
    storage = deserialize_storage_data row.blobs.storage_data;
    network = deserialize_network_data row.blobs.network_data;
    system = deserialize_system_data row.blobs.system_data;
    gpus = deserialize_gpu_data row.blobs.gpu_data;
    smart = deserialize_smart_data env row.blobs.smart_data;
  }

  -- In the aggregated table only version 2 of the system blob is looked for.
  unfoldable pub parse_aggregated_row : AggRow F → AggregatedSnapshot F
  unfolding deserialize_container_data deserialize_storage_data deserialize_network_data
      deserialize_gpu_data deserialize_smart_data deserialize_cpu_data deserialize_ram_data to_u64
      blob_payload
  parse_aggregated_row row = record {
    created_at = row.created_at;
    resolution_seconds = row.resolution_seconds;
    cpu_load_avg = row.cpu_load_avg;
    cpu_load_min = row.cpu_load_min;
    cpu_load_max = row.cpu_load_max;
    memory_used_avg = row.memory_used_avg;
    memory_used_min = row.memory_used_min;
    memory_used_max = row.memory_used_max;
    cpu = deserialize_cpu_data row.blobs.cpu_data row.cpu_load_avg;
    ram = deserialize_ram_data row.blobs.ram_data (to_u64 row.memory_used_avg);
    containers = deserialize_container_data row.blobs.container_data;
    storage = deserialize_storage_data row.blobs.storage_data;
    network = deserialize_network_data row.blobs.network_data;
    system =
        unwrap_or
          (env.system.deserialize (blob_payload row.blobs.system_data blob_version_system_dynamic))
          system_default;
    gpus = deserialize_gpu_data row.blobs.gpu_data;
    smart = deserialize_smart_data env row.blobs.smart_data;
  }

  -- The eight blobs of one row, in the order in which the source serializes them.
  unfoldable pub encode_blobs :
      List (ContainerStats F)
      → StorageStats F
      → NetworkStats F
      → SystemStatsDynamic F
      → CpuStats F
      → RamStats F
      → List (GpuStats F)
      → List SmartHealth
      → Exec F Blobs
  encode_blobs containers storage network system cpu ram gpus smart = do
    container_data ← encode blob_version_1 env.containers containers
    storage_data ← encode blob_version_1 env.storage storage
    network_data ← encode blob_version_1 env.network network
    system_data ← encode blob_version_system_dynamic env.system system
    cpu_data ← encode blob_version_1 env.cpu cpu
    ram_data ← encode blob_version_1 env.ram ram
    gpu_data ← encode blob_version_1 env.gpus gpus
    smart_data ← encode blob_version_1 env.smart smart
    pure (record {
      container_data = container_data;
      storage_data = storage_data;
      network_data = network_data;
      system_data = system_data;
      cpu_data = some cpu_data;
      ram_data = some ram_data;
      gpu_data = some gpu_data;
      smart_data = some smart_data;
    })
