-- ===== src/AggregationWorker/NoLoss.antt =====
-- What it means that the roll-up loops of src/aggregation_worker.rs lose no snapshot.
pub mod Save
pub mod Raw
pub mod Minutes
pub mod Pass
use mathlib.Core.List.Perm
use mathlib.Core.List.{Perm}
use homeserver_rust.Prelude.{
  ℕ, zero, suc, ◌≡◌, ◌≢◌, refl, sym, subst, ◌∙◌, ◌⊎◌, inl, inr, Bool, true, false, not, ◌&&◌, List,
  [], ◌∷◌, ◌++◌, map, Option, none, some, arith, filter, Any, Any-append_left, Any-append_right,
  Any-filter, filter-ne-nil, Bool-cases, ◌==◌,
}
use homeserver_rust.Prelude.Int.{ℤ, leb_ℤ}
use homeserver_rust.Prelude.Result.{Result}
use homeserver_rust.Float.{Float}
use homeserver_rust.Models.{FullSystemSnapshot, AggregatedSnapshot}
use homeserver_rust.History.Db.{
  RawRow, AggRow, Blobs, Env, IsOrdering, Db, DbError, World, Exec, pure, raise, out_of_fuel,
  statement, ◌>>=◌, ◌>>◌,
}
use homeserver_rust.History.Db.Post.{Post, Post-statement, Post-pure, Post-bind, Post-weaken}
use homeserver_rust.History.Db.Still.{Post-Still}
use homeserver_rust.History.Codec.{encode_blobs, parse_snapshot_row}
use homeserver_rust.History.Codec.Encodes.{Still-encode_blobs}
use homeserver_rust.History.Raw.{in_range, get_raw_snapshots_by_time_range, delete_raw_range}
use homeserver_rust.History.AggStore.{
  agg_row_of, agg_in_range, save_aggregated_snapshot, get_aggregated_snapshots_by_time_range,
  delete_aggregated_range,
}
use homeserver_rust.History.Aggregation.{aggregate_snapshots, aggregate_aggregated_snapshots}
use homeserver_rust.AggregationWorker.{
  ms_per_minute, ms_per_5_minutes, resolution_1min, resolution_5min, bucket_end, save_if_some,
  roll_raw_bucket, roll_minute_bucket, roll,
}

-- `t` lies in the bucket that starts at `b`.
abbrev pub InBucket : ℕ → ℤ → ℤ → Type 0
InBucket width b t = in_range b (bucket_end width b) t ≡ true

module _ {F : Type 0} where
  -- A minute's row stands for `t`.
  abbrev pub IsMinuteOf : ℤ → AggRow F → Type 0
  IsMinuteOf t a = (a.resolution_seconds ≡ resolution_1min) × InBucket ms_per_minute a.created_at t

  -- A row of five minutes stands for `t`, by way of the minute that it was rolled up from.
  abbrev pub IsFiveOf : ℤ → AggRow F → Type 0
  IsFiveOf t a =
      (a.resolution_seconds ≡ resolution_5min)
      × ((m : ℤ) × InBucket ms_per_minute m t × InBucket ms_per_5_minutes a.created_at m)

  -- The row is still there, or an aggregated row stands for its time.
  abbrev pub IsKept : RawRow F → Db F → Type 0
  IsKept r db =
      Any (λ x. x ≡ r) db.raw
      ⊎ Any (IsMinuteOf r.created_at) db.agg
      ⊎ Any (IsFiveOf r.created_at) db.agg

module _ {F : Type 0} (r : RawRow F) where
  -- A further aggregated row takes nothing away.
  pub IsKept-append :
      (rows : List (AggRow F)) (db : Db F)
      → IsKept r db
      → IsKept r (record db { agg = db.agg ++ rows })
  IsKept-append rows db (inl h) = inl h
  IsKept-append rows db (inr (inl h)) = inr (inl (Any-append_left _ _ _ h))
  IsKept-append rows db (inr (inr h)) = inr (inr (Any-append_left _ _ _ h))
