-- ===== src/AggregationWorker/Among.antt =====
-- A pass of src/aggregation_worker.rs among the other tasks: at each `.await` the writer may commit
-- rows and the sampling worker may prune before the pass goes on.
pub mod Keeps
use homeserver_rust.Prelude.{ℕ, zero, suc, List, [], ◌∷◌, ◌++◌, Option, none, some}
use homeserver_rust.Prelude.Int.{ℤ}
use homeserver_rust.Prelude.Result.{ok}
use homeserver_rust.Float.{Float}
use homeserver_rust.History.Db.{RawRow, Env, World, Exec, clock, pure, raise, ◌>>=◌}
use homeserver_rust.History.Raw.{
  get_min_raw_created_at_before, get_raw_snapshots_by_time_range, delete_raw_range, prune_old_data,
}
use homeserver_rust.History.AggStore.{
  get_aggregated_snapshots_by_time_range, get_min_aggregated_created_at_before,
  delete_aggregated_range, prune_aggregated_old_data,
}
use homeserver_rust.History.Aggregation.{aggregate_snapshots, aggregate_aggregated_snapshots}
use homeserver_rust.AggregationWorker.{
  AggregationWorkerConfig, ms_per_minute, ms_per_5_minutes, resolution_1min, resolution_5min,
  bucket_floor, buckets, hours_before, roll, save_if_some,
}

-- What another task does: the writer commits rows, or the sampling worker prunes, its reading of the
-- clock being one of those of `Meanwhile`.
pub data Other (F : Type 0) : Type 0 where
  commits : List (RawRow F) → Other F
  prunes : ℕ → Other F

-- What happens in one round of a loop, after each of its statements.
pub record Gaps (F : Type 0) : Type 0 where
  pub after_read : List (Other F)
  pub after_save : List (Other F)
  pub after_delete : List (Other F)

-- What happens in a pass: before each of its loops, and in the round of each bucket. `clocks` are
-- what the prunes of the sampling worker read.
pub record Meanwhile (F : Type 0) : Type 0 where
  pub clocks : List (Option ℕ)
  pub before_raw : List (Other F)
  pub raw_rounds : ℤ → Gaps F
  pub before_minutes : List (Other F)
  pub minute_rounds : ℤ → Gaps F

-- The reading of this number, if there are so many.
abbrev pub nth : {A : Type 0} → List A → ℕ → Option A
nth [] i = none
nth (x ∷ rest) zero = some x
nth (x ∷ rest) (suc i) = nth rest i

-- The rows that are committed.
abbrev pub committed : {F : Type 0} → List (RawRow F) → World F → World F
committed rows w = record w { db = record w.db { raw = w.db.raw ++ rows } }

-- A prune of the sampling worker; an error is only logged.
abbrev pub prune_at : {F : Type 0} → ℕ → Option (Option ℕ) → World F → World F
prune_at retention_ms none w = w
prune_at retention_ms (some now) w = (prune_old_data retention_ms now w).1

abbrev pub happened : {F : Type 0} → ℕ → List (Option ℕ) → List (Other F) → World F → World F
happened retention_ms clocks [] w = w
happened retention_ms clocks (commits rows ∷ rest) w =
    happened retention_ms clocks rest (committed rows w)
happened retention_ms clocks (prunes i ∷ rest) w =
    happened retention_ms clocks rest (prune_at retention_ms (nth clocks i) w)

-- The others go on, and the pass after them.
unfoldable pub yielded : {F : Type 0} → ℕ → List (Option ℕ) → List (Other F) → Exec F (Unit {0})
yielded retention_ms clocks others w = (ok tt, happened retention_ms clocks others w)

module _ {F : Type 0} ⦃f : Float F⦄ ⦃env : Env F⦄ (retention_ms : ℕ) (m : Meanwhile F) where
  -- `roll_raw_bucket` among them.
  unfoldable pub raw_round : ℤ → ℤ → ℕ → Exec F ℕ
  raw_round bucket_start end count = do
    let gaps = m.raw_rounds bucket_start
    snapshots ← get_raw_snapshots_by_time_range bucket_start end
    _ ← yielded retention_ms m.clocks gaps.after_read
    count' ← save_if_some (aggregate_snapshots snapshots bucket_start resolution_1min) count
    _ ← yielded retention_ms m.clocks gaps.after_save
    _ ← delete_raw_range bucket_start end
    _ ← yielded retention_ms m.clocks gaps.after_delete
    pure count'

  -- `roll_minute_bucket` among them.
  unfoldable pub minute_round : ℤ → ℤ → ℕ → Exec F ℕ
  minute_round bucket_start end count = do
    let gaps = m.minute_rounds bucket_start
    one_min_rows ← get_aggregated_snapshots_by_time_range bucket_start end resolution_1min
    _ ← yielded retention_ms m.clocks gaps.after_read
    count' ←
        save_if_some (aggregate_aggregated_snapshots one_min_rows bucket_start resolution_5min)
          count
    _ ← yielded retention_ms m.clocks gaps.after_save
    _ ← delete_aggregated_range bucket_start end resolution_1min
    _ ← yielded retention_ms m.clocks gaps.after_delete
    pure count'

  -- `roll_minutes_from` among them.
  unfoldable pub minutes_from : Option ℕ → ℤ → Option ℤ → Exec F (Unit {0})
  minutes_from prune_now cutoff_1min none = do
    _ ← prune_aggregated_old_data retention_ms prune_now
    pure tt
  minutes_from prune_now cutoff_1min (some min_1min_ts) = do
    let start = bucket_floor ms_per_5_minutes min_1min_ts
    _ ←
        roll minute_round ms_per_5_minutes (suc (buckets ms_per_5_minutes start cutoff_1min)) start
          cutoff_1min 0
    _ ← prune_aggregated_old_data retention_ms prune_now
    pure tt

  -- `roll_raw_from` and `roll_minutes` among them.
  unfoldable pub raw_from : Option ℕ → ℤ → ℤ → Option ℤ → Exec F (Unit {0})
  raw_from prune_now cutoff_raw cutoff_1min none = pure tt
  raw_from prune_now cutoff_raw cutoff_1min (some min_ts) = do
    let start = bucket_floor ms_per_minute min_ts
    _ ← yielded retention_ms m.clocks m.before_raw
    _ ←
        roll raw_round ms_per_minute (suc (buckets ms_per_minute start cutoff_raw)) start cutoff_raw
          0
    oldest ← get_min_aggregated_created_at_before cutoff_1min resolution_1min
    _ ← yielded retention_ms m.clocks m.before_minutes
    minutes_from prune_now cutoff_1min oldest

  -- `run_one_tick` among them.
  unfoldable pub pass : AggregationWorkerConfig → Option ℕ → Option ℕ → Exec F (Unit {0})
  pass config none prune_now = raise clock
  pass config (some now) prune_now = do
    let cutoff_raw = hours_before now config.raw_retention_hours
    let cutoff_1min = hours_before now config.minute_retention_hours
    oldest ← get_min_raw_created_at_before cutoff_raw
    raw_from prune_now cutoff_raw cutoff_1min oldest
