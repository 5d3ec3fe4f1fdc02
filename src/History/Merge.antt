-- ===== src/History/Merge.antt =====
-- src/history_repo/history_merge.rs: downsampling, and the history of the API.
pub mod Gap
pub mod Order
pub mod Latest
use homeserver_rust.Prelude.{
  ℕ, ◌*◌, Bool, true, false, not, ◌&&◌, ◌||◌, List, [], ◌∷◌, ◌++◌, map, Option, ltb, leb, ◌==◌,
  is_empty, if◌then◌else◌,
}
use homeserver_rust.Prelude.Int.{ℤ, pos, ltb_ℤ, leb_ℤ, min_ℤ, max_ℤ, tdiv, scale, to_u64, to_i64}
use homeserver_rust.Float.{Float}
use homeserver_rust.Models.{FullSystemSnapshot, AggregatedSnapshot}
use homeserver_rust.History.Db.{Env, Exec, pure, ◌>>=◌}
use homeserver_rust.History.Raw.{get_raw_snapshots_by_time_range}
use homeserver_rust.History.AggStore.{get_aggregated_snapshots_by_time_range}

module _ {F : Type 0} where
  unfoldable pub aggregated_to_snapshot : AggregatedSnapshot F → FullSystemSnapshot F
  aggregated_to_snapshot agg = record {
    timestamp = to_u64 agg.created_at;
    cpu = agg.cpu;
    ram = agg.ram;
    containers = agg.containers;
    storage = agg.storage;
    network = agg.network;
    system = agg.system;
    gpus = agg.gpus;
    smart = agg.smart;
  }

  -- `BTreeMap::insert`, on the entries by ascending key.
  unfoldable pub bucket_insert :
      ℤ → FullSystemSnapshot F → List (ℤ × FullSystemSnapshot F) → List (ℤ × FullSystemSnapshot F)
  bucket_insert k s [] = (k, s) ∷ []
  bucket_insert k s ((j, t) ∷ rest) =
      let later = bucket_insert k s rest in
      if ltb_ℤ k j
      then (k, s) ∷ (j, t) ∷ rest
      else if ltb_ℤ j k
      then (j, t) ∷ later
      else (k, s) ∷ rest

  -- `(timestamp as i64 / resolution_ms) * resolution_ms`, for a resolution above zero; the product
  -- lies between the timestamp and zero, so it does not wrap.
  unfoldable pub bucket_of : ℕ → FullSystemSnapshot F → ℤ
  bucket_of resolution_ms s = scale (tdiv (to_i64 s.timestamp) resolution_ms) resolution_ms

  -- The loop over the snapshots.
  unfoldable pub fill_buckets :
      ℕ
      → List (FullSystemSnapshot F)
      → List (ℤ × FullSystemSnapshot F)
      → List (ℤ × FullSystemSnapshot F)
  fill_buckets resolution_ms [] by_bucket = by_bucket
  fill_buckets resolution_ms (s ∷ rest) by_bucket =
      fill_buckets resolution_ms rest (bucket_insert (bucket_of resolution_ms s) s by_bucket)

  -- The resolution comes from a `u32` of seconds, so it is never negative.
  unfoldable pub downsample_snapshots :
      List (FullSystemSnapshot F) → ℕ → List (FullSystemSnapshot F)
  downsample_snapshots snapshots resolution_ms =
      if is_empty snapshots || resolution_ms == 0
      then snapshots
      else map (λ e. e.1) (fill_buckets resolution_ms snapshots [])

  -- `sort_by_key(|s| s.timestamp)`, a stable sort.
  unfoldable pub insert_by_timestamp :
      FullSystemSnapshot F → List (FullSystemSnapshot F) → List (FullSystemSnapshot F)
  insert_by_timestamp s [] = s ∷ []
  insert_by_timestamp s (t ∷ rest) =
      if leb s.timestamp t.timestamp then s ∷ t ∷ rest else t ∷ insert_by_timestamp s rest

  unfoldable pub sort_by_timestamp : List (FullSystemSnapshot F) → List (FullSystemSnapshot F)
  sort_by_timestamp [] = []
  sort_by_timestamp (s ∷ rest) = insert_by_timestamp s (sort_by_timestamp rest)

abbrev pub agg_resolution_of : ℕ → ℕ
agg_resolution_of resolution_secs = if leb 300 resolution_secs then 300 else 60

module _ {F : Type 0} ⦃f : Float F⦄ ⦃env : Env F⦄ where
  -- `if resolution_secs > 1 && !raw.is_empty()`
  abbrev pub thin : ℕ → List (FullSystemSnapshot F) → List (FullSystemSnapshot F)
  thin resolution_secs raw =
      if ltb 1 resolution_secs && not (is_empty raw)
      then downsample_snapshots raw (resolution_secs * 1000)
      else raw

  unfoldable pub raw_part : ℤ → ℤ → ℤ → Exec F (List (FullSystemSnapshot F))
  raw_part from_ts to_ts raw_cutoff_ts =
      if ltb_ℤ raw_cutoff_ts to_ts
      then get_raw_snapshots_by_time_range (max_ℤ from_ts raw_cutoff_ts) to_ts
      else pure []

  unfoldable pub agg_part : ℤ → ℤ → ℕ → ℤ → Exec F (List (FullSystemSnapshot F))
  agg_part from_ts to_ts resolution_secs raw_cutoff_ts =
      if ltb_ℤ from_ts raw_cutoff_ts
      then (do
        aggs ←
            get_aggregated_snapshots_by_time_range from_ts (min_ℤ to_ts raw_cutoff_ts)
              (agg_resolution_of resolution_secs)
        pure (map aggregated_to_snapshot aggs))
      else pure []

  unfoldable pub get_history : ℤ → ℤ → ℕ → ℤ → Exec F (List (FullSystemSnapshot F))
  get_history from_ts to_ts resolution_secs raw_cutoff_ts = do
    raw ← raw_part from_ts to_ts raw_cutoff_ts
    agg_snapshots ← agg_part from_ts to_ts resolution_secs raw_cutoff_ts
    pure (sort_by_timestamp (agg_snapshots ++ thin resolution_secs raw))
