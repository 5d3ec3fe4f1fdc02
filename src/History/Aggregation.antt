-- ===== src/History/Aggregation.antt =====
-- src/history_repo/aggregation.rs: a bucket of rows becomes one row.
mod Means
mod Containers
use homeserver_rust.Prelude.{ℕ, List, [], ◌∷◌, map, Option, none, some, last}
use homeserver_rust.Prelude.Int.{ℤ, to_i64}
use homeserver_rust.Float.{Float}
use homeserver_rust.Models.{FullSystemSnapshot, AggregatedSnapshot}
use homeserver_rust.History.Db.{Env}
unfoldable pub use Means.*
unfoldable pub use Containers.*

module _ {F : Type 0} ⦃f : Float F⦄ ⦃env : Env F⦄ where
  unfoldable pub aggregate_snapshots :
      List (FullSystemSnapshot F) → ℤ → ℕ → Option (AggregatedSnapshot F)
  unfolding mean_f64 min_f64 max_f64 mean_i64 min_i64 max_i64 aggregate_containers to_i64
  aggregate_snapshots [] bucket_start_ts resolution_seconds = none
  aggregate_snapshots (s ∷ rest) bucket_start_ts resolution_seconds =
      let snapshots = s ∷ rest in
      let cpu_loads = map (λ s. s.cpu.usage_percent) snapshots in
      let memory_used = map (λ s. to_i64 s.ram.used) snapshots in
      let end = last s rest in
      some (record {
        created_at = bucket_start_ts;
        resolution_seconds = resolution_seconds;
        cpu_load_avg = mean_f64 cpu_loads;
        cpu_load_min = min_f64 cpu_loads;
        cpu_load_max = max_f64 cpu_loads;
        memory_used_avg = mean_i64 memory_used;
        memory_used_min = min_i64 memory_used;
        memory_used_max = max_i64 memory_used;
        cpu = end.cpu;
        ram = end.ram;
        containers = aggregate_containers (map (λ s. s.containers) snapshots);
        storage = end.storage;
        network = end.network;
        system = end.system;
        gpus = end.gpus;
        smart = end.smart;
      })

  unfoldable pub aggregate_aggregated_snapshots :
      List (AggregatedSnapshot F) → ℤ → ℕ → Option (AggregatedSnapshot F)
  unfolding mean_f64 min_f64 max_f64 mean_i64 min_i64 max_i64 aggregate_containers
  aggregate_aggregated_snapshots [] bucket_start_ts resolution_seconds = none
  aggregate_aggregated_snapshots (a ∷ rest) bucket_start_ts resolution_seconds =
      let aggs = a ∷ rest in
      let end = last a rest in
      some (record {
        created_at = bucket_start_ts;
        resolution_seconds = resolution_seconds;
        cpu_load_avg = mean_f64 (map (λ a. a.cpu_load_avg) aggs);
        cpu_load_min = min_f64 (map (λ a. a.cpu_load_min) aggs);
        cpu_load_max = max_f64 (map (λ a. a.cpu_load_max) aggs);
        memory_used_avg = mean_i64 (map (λ a. a.memory_used_avg) aggs);
        memory_used_min = min_i64 (map (λ a. a.memory_used_min) aggs);
        memory_used_max = max_i64 (map (λ a. a.memory_used_max) aggs);
        cpu = end.cpu;
        ram = end.ram;
        containers = aggregate_containers (map (λ a. a.containers) aggs);
        storage = end.storage;
        network = end.network;
        system = end.system;
        gpus = end.gpus;
        smart = end.smart;
      })
