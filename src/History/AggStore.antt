-- ===== src/History/AggStore.antt =====
-- src/history_repo/agg_store.rs: statements on `system_history_aggregated`.
pub mod Saves
use homeserver_rust.Prelude.{
  ℕ, Bool, not, ◌&&◌, List, [], ◌∷◌, ◌++◌, map, Option, length, filter, ◌==◌,
}
use homeserver_rust.Prelude.Int.{ℤ, ltb_ℤ}
use homeserver_rust.Float.{Float}
use homeserver_rust.Models.{AggregatedSnapshot}
use homeserver_rust.History.Db.{
  AggRow, Blobs, Env, Db, Exec, clock, or_raise, pure, statement, ◌>>=◌,
}
use homeserver_rust.History.Codec.{encode_blobs, parse_aggregated_row}
use homeserver_rust.History.Raw.{in_range, min_before, prune_cutoff}

-- `created_at >= $1 AND created_at < $2 AND resolution_seconds = $3`
unfoldable pub agg_in_range : {F : Type 0} → ℤ → ℤ → ℕ → AggRow F → Bool
agg_in_range from to resolution_seconds r =
    in_range from to r.created_at && r.resolution_seconds == resolution_seconds

abbrev pub agg_row_of : {F : Type 0} → AggregatedSnapshot F → Blobs → AggRow F
agg_row_of agg blobs = record {
  created_at = agg.created_at;
  resolution_seconds = agg.resolution_seconds;
  cpu_load_avg = agg.cpu_load_avg;
  cpu_load_min = agg.cpu_load_min;
  cpu_load_max = agg.cpu_load_max;
  memory_used_avg = agg.memory_used_avg;
  memory_used_min = agg.memory_used_min;
  memory_used_max = agg.memory_used_max;
  blobs = blobs;
}

module _ {F : Type 0} where
  unfoldable pub get_min_aggregated_created_at_before : ℤ → ℕ → Exec F (Option ℤ)
  get_min_aggregated_created_at_before cutoff resolution_seconds = statement λ db. (
    min_before cutoff
        (map (λ r. r.created_at) (filter (λ r. r.resolution_seconds == resolution_seconds) db.agg)),
    db,
  )

  unfoldable pub delete_aggregated_range : ℤ → ℤ → ℕ → Exec F ℕ
  delete_aggregated_range from to resolution_seconds = statement λ db. (
    length (filter (agg_in_range from to resolution_seconds) db.agg),
    record db { agg = filter (λ r. not (agg_in_range from to resolution_seconds r)) db.agg },
  )

  unfoldable pub prune_aggregated_old_data : ℕ → Option ℕ → Exec F ℕ
  prune_aggregated_old_data retention_ms now = do
    cutoff ← or_raise clock (prune_cutoff retention_ms now)
    statement λ db. (
      length (filter (λ r. ltb_ℤ r.created_at cutoff) db.agg),
      record db { agg = filter (λ r. not (ltb_ℤ r.created_at cutoff)) db.agg },
    )

module _ {F : Type 0} ⦃f : Float F⦄ ⦃env : Env F⦄ where
  unfoldable pub save_aggregated_snapshot : AggregatedSnapshot F → Exec F (Unit {0})
  save_aggregated_snapshot agg = do
    blobs ←
        encode_blobs agg.containers agg.storage agg.network agg.system agg.cpu agg.ram agg.gpus
          agg.smart
    statement λ db. (tt, record db { agg = db.agg ++ agg_row_of agg blobs ∷ [] })

  unfoldable pub get_aggregated_snapshots_by_time_range :
      ℤ → ℤ → ℕ → Exec F (List (AggregatedSnapshot F))
  get_aggregated_snapshots_by_time_range from to resolution_seconds = do
    rows ←
        statement
          λ db. (env.order_agg (filter (agg_in_range from to resolution_seconds) db.agg), db)
    pure (map parse_aggregated_row rows)
