-- ===== src/History/Db/Rows.antt =====
-- The rows of the tables (src/history_repo/schema.rs and aggregation.rs), and what the program
-- takes from other code: the crate `wincode`, SQLite's ORDER BY, and the order of a `HashMap`.
use homeserver_rust.Prelude.{ℕ, ◌≡◌, List, String, Option, some, All}
use homeserver_rust.Prelude.Int.{ℤ, ◌≤ℤ◌}
use mathlib.Core.List.{Perm, [], ◌∷◌}
use homeserver_rust.History.Blob.{Bytes}
use homeserver_rust.Models.{
  ContainerStats, StorageStats, NetworkStats, SystemStatsDynamic, SystemStats, CpuStats, RamStats,
  GpuStats, SmartHealth, SystemInfo,
}

-- The columns that hold serialized data; the last four may be NULL in rows of older schemas.
pub record Blobs : Type 0 where
  pub container_data : Bytes
  pub storage_data : Bytes
  pub network_data : Bytes
  pub system_data : Bytes
  pub cpu_data : Option Bytes
  pub ram_data : Option Bytes
  pub gpu_data : Option Bytes
  pub smart_data : Option Bytes

-- A row of `system_history`.
pub record RawRow (F : Type 0) : Type 0 where
  pub created_at : ℤ
  pub cpu_load : F
  pub memory_used : ℤ
  pub blobs : Blobs

-- A row of `system_history_aggregated`. The resolution is 60 or 300.
pub record AggRow (F : Type 0) : Type 0 where
  pub created_at : ℤ
  pub resolution_seconds : ℕ
  pub cpu_load_avg : F
  pub cpu_load_min : F
  pub cpu_load_max : F
  pub memory_used_avg : ℤ
  pub memory_used_min : ℤ
  pub memory_used_max : ℤ
  pub blobs : Blobs

-- `wincode::serialize` and `wincode::deserialize` at one type; `none` is a failure.
pub record Codec (A : Type 0) : Type 0 where
  pub serialize : A → Option Bytes
  pub deserialize : Bytes → Option A

-- What is deserialized is what was serialized.
abbrev pub IsExact : {A : Type 0} → Codec A → Type 0
IsExact {A} c = (a : A) (bs : Bytes) → c.serialize a ≡ some bs → c.deserialize bs ≡ some a

pub record Env (F : Type 0) : Type 0 where
  pub containers : Codec (List (ContainerStats F))
  pub storage : Codec (StorageStats F)
  pub network : Codec (NetworkStats F)
  pub system : Codec (SystemStatsDynamic F)
  pub system_full : Codec (SystemStats F)
  pub cpu : Codec (CpuStats F)
  pub ram : Codec (RamStats F)
  pub gpus : Codec (List (GpuStats F))
  pub smart : Codec (List SmartHealth)
  pub info : Codec SystemInfo
  -- ORDER BY created_at ASC; how it orders rows of one time is left open
  pub order_raw : List (RawRow F) → List (RawRow F)
  pub order_agg : List (AggRow F) → List (AggRow F)
  -- the order in which a `HashMap` of containers by id gives its entries
  pub hash_order : List (String × List (ContainerStats F)) → List (String × List (ContainerStats F))

abbrev pub Ascending : {R : Type 0} → (R → ℤ) → List R → Type 0
Ascending key [] = Unit
Ascending key (x ∷ xs) = All (λ y. key x ≤ℤ key y) xs × Ascending key xs

module _ {F : Type 0} where
  -- ORDER BY sorts the rows that it is given, and loses and adds none.
  pub record IsOrdering (env : Env F) : Type 0 where
    pub raw_perm : (rows : List (RawRow F)) → Perm (env.order_raw rows) rows
    pub agg_perm : (rows : List (AggRow F)) → Perm (env.order_agg rows) rows
    pub raw_sorted : (rows : List (RawRow F)) → Ascending (λ r. r.created_at) (env.order_raw rows)
    pub agg_sorted : (rows : List (AggRow F)) → Ascending (λ r. r.created_at) (env.order_agg rows)

  pub record IsExactEnv (env : Env F) : Type 0 where
    pub containers : IsExact env.containers
    pub storage : IsExact env.storage
    pub network : IsExact env.network
    pub system : IsExact env.system
    pub cpu : IsExact env.cpu
    pub ram : IsExact env.ram
    pub gpus : IsExact env.gpus
    pub smart : IsExact env.smart
    pub info : IsExact env.info
