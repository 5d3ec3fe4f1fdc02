-- ===== src/AggregationWorker.antt =====
-- src/aggregation_worker.rs: one pass rolls raw rows into minutes, minutes into five minutes, and
-- prunes. The loop of the worker is in Service.
pub mod NoLoss
pub mod Skips
pub mod Ends
pub mod Among
pub mod Service
use homeserver_rust.Prelude.{
  ℕ, zero, suc, ◌+◌, ◌-◌, ◌*◌, ◌/◌, ◌%◌, ◌^◌, String, List, Option, none, some, if◌then◌else◌,
}
use homeserver_rust.Prelude.Int.{
  ℤ, pos, pos_part, neg_part, ◌+ℤ◌, ◌-ℤ◌, leb_ℤ, tdiv, scale, to_i64, wrap_i64,
}
use homeserver_rust.Float.{Float}
use homeserver_rust.Models.{FullSystemSnapshot, AggregatedSnapshot}
use homeserver_rust.History.Db.{Env, Exec, DbError, clock, out_of_fuel, pure, raise, ◌>>=◌, ◌>>◌}
use homeserver_rust.History.Raw.{
  get_min_raw_created_at_before, get_raw_snapshots_by_time_range, delete_raw_range,
}
use homeserver_rust.History.AggStore.{
  save_aggregated_snapshot, get_aggregated_snapshots_by_time_range,
  get_min_aggregated_created_at_before, delete_aggregated_range, prune_aggregated_old_data,
}
use homeserver_rust.History.Aggregation.{aggregate_snapshots, aggregate_aggregated_snapshots}

abbrev pub ms_per_minute : ℕ
ms_per_minute = 60_000

abbrev pub ms_per_5_minutes : ℕ
ms_per_5_minutes = 300_000

abbrev pub resolution_1min : ℕ
resolution_1min = 60

abbrev pub resolution_5min : ℕ
resolution_5min = 300

pub record AggregationWorkerConfig : Type 0 where
  pub aggregation_interval_secs : ℕ
  pub raw_retention_hours : ℕ
  pub minute_retention_hours : ℕ
  pub retention_days : ℕ
  pub vacuum_schedule : Option String
  pub vacuum_interval_secs : ℕ

-- `(ts / width) * width`
unfoldable pub bucket_floor : ℕ → ℤ → ℤ
bucket_floor width ts = scale (tdiv ts width) width

-- `bucket_start + width`, in an `i64`
unfoldable pub bucket_end : ℕ → ℤ → ℤ
bucket_end width bucket_start = wrap_i64 (bucket_start +ℤ pos width)

-- How many buckets of this width end at or before the cutoff.
unfoldable pub buckets : ℕ → ℤ → ℤ → ℕ
buckets width bucket_start cutoff =
    ((pos_part cutoff + neg_part bucket_start) - (pos_part bucket_start + neg_part cutoff)) / width

-- `now_ms - hours as i64 * 3600 * 1000`
unfoldable pub hours_before : ℕ → ℕ → ℤ
hours_before now hours = wrap_i64 (to_i64 now -ℤ pos (hours * 3600 * 1000))

module _ {F : Type 0} where
  -- `while bucket_start + width <= cutoff`, with fuel.
  unfoldable pub roll : (ℤ → ℤ → ℕ → Exec F ℕ) → ℕ → ℕ → ℤ → ℤ → ℕ → Exec F ℕ
  roll round width zero bucket_start cutoff count = raise out_of_fuel
  roll round width (suc fuel) bucket_start cutoff count =
      let end = bucket_end width bucket_start in
      let body = (do
        count' ← round bucket_start end count
        roll round width fuel end cutoff count') in
      if leb_ℤ end cutoff then body else pure count

module _ {F : Type 0} ⦃f : Float F⦄ ⦃env : Env F⦄ where
  -- `if let Some(agg) = … { save; count += 1 }`; the counts are `u32`
  unfoldable pub save_if_some : Option (AggregatedSnapshot F) → ℕ → Exec F ℕ
  save_if_some none count = pure count
  save_if_some (some agg) count = save_aggregated_snapshot agg >> pure ((count + 1) % 2 ^ 32)

  -- One round of the first loop: read, save, delete.
  unfoldable pub roll_raw_bucket : ℤ → ℤ → ℕ → Exec F ℕ
  roll_raw_bucket bucket_start end count = do
    snapshots ← get_raw_snapshots_by_time_range bucket_start end
    count' ← save_if_some (aggregate_snapshots snapshots bucket_start resolution_1min) count
    _ ← delete_raw_range bucket_start end
    pure count'

  -- One round of the second loop.
  unfoldable pub roll_minute_bucket : ℤ → ℤ → ℕ → Exec F ℕ
  roll_minute_bucket bucket_start end count = do
    one_min_rows ← get_aggregated_snapshots_by_time_range bucket_start end resolution_1min
    count' ←
        save_if_some (aggregate_aggregated_snapshots one_min_rows bucket_start resolution_5min)
          count
    _ ← delete_aggregated_range bucket_start end resolution_1min
    pure count'

  -- What follows the `let Some(min_1min_ts) = … else` of the second half of a pass.
  unfoldable pub roll_minutes_from : ℕ → Option ℕ → ℤ → Option ℤ → Exec F (Unit {0})
  roll_minutes_from retention_ms prune_now cutoff_1min none = do
    _ ← prune_aggregated_old_data retention_ms prune_now
    pure tt
  roll_minutes_from retention_ms prune_now cutoff_1min (some min_1min_ts) = do
    let start = bucket_floor ms_per_5_minutes min_1min_ts
    _ ←
        roll roll_minute_bucket ms_per_5_minutes (suc (buckets ms_per_5_minutes start cutoff_1min))
          start cutoff_1min 0
    _ ← prune_aggregated_old_data retention_ms prune_now
    pure tt

  unfoldable pub roll_minutes : ℕ → Option ℕ → ℤ → Exec F (Unit {0})
  roll_minutes retention_ms prune_now cutoff_1min = do
    oldest ← get_min_aggregated_created_at_before cutoff_1min resolution_1min
    roll_minutes_from retention_ms prune_now cutoff_1min oldest

  -- What follows the `let Some(min_ts) = … else` of the first half.
  unfoldable pub roll_raw_from : ℕ → Option ℕ → ℤ → ℤ → Option ℤ → Exec F (Unit {0})
  roll_raw_from retention_ms prune_now cutoff_raw cutoff_1min none = pure tt
  roll_raw_from retention_ms prune_now cutoff_raw cutoff_1min (some min_ts) = do
    let start = bucket_floor ms_per_minute min_ts
    _ ←
        roll roll_raw_bucket ms_per_minute (suc (buckets ms_per_minute start cutoff_raw)) start
          cutoff_raw 0
    roll_minutes retention_ms prune_now cutoff_1min

  -- The clock is read at the start of the pass and again by the prune at its end.
  unfoldable pub run_one_tick :
      AggregationWorkerConfig → ℕ → Option ℕ → Option ℕ → Exec F (Unit {0})
  run_one_tick config retention_ms none prune_now = raise clock
  run_one_tick config retention_ms (some now) prune_now = do
    let cutoff_raw = hours_before now config.raw_retention_hours
    let cutoff_1min = hours_before now config.minute_retention_hours
    oldest ← get_min_raw_created_at_before cutoff_raw
    roll_raw_from retention_ms prune_now cutoff_raw cutoff_1min oldest

  -- src/backfill.rs: one pass at the start of the program.
  unfoldable pub run_backfill :
      AggregationWorkerConfig → ℕ → Option ℕ → Option ℕ → Exec F (Unit {0})
  run_backfill config retention_ms now prune_now =
      run_one_tick config retention_ms now prune_now >> pure tt
