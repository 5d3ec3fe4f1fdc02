-- ===== src/History/Merge/Gap.antt =====
-- What `get_history` of src/history_repo/history_merge.rs cannot see.
use homeserver_rust.Prelude.{ℕ, ◌≡◌, refl, Bool, true, ◌&&◌, List, [], ◌∷◌, arith, filter, ◌==◌}
use homeserver_rust.Prelude.Int.{ℤ, ltb_ℤ, min_ℤ}
use homeserver_rust.Float.{Float}
use homeserver_rust.History.Db.{AggRow, Env, World, pure, statement, ◌>>=◌}
use homeserver_rust.History.Raw.{in_range, get_raw_snapshots_by_time_range}
use homeserver_rust.History.AggStore.{agg_in_range, get_aggregated_snapshots_by_time_range}
use homeserver_rust.History.Merge.{agg_resolution_of, raw_part, agg_part, get_history}

filter-filter :
    {A : Type 0} (p q : A → Bool)
    → ((x : A) → p x ≡ true → q x ≡ true)
    → (xs : List A) → filter p (filter q xs) ≡ filter p xs
filter-filter p q h [] = refl
filter-filter p q h (x ∷ xs) = ground (arith, h x, filter-filter p q h xs)

-- A database without the aggregated rows that start at or after the cutoff, or that have another
-- resolution.
abbrev pub keep_visible : {F : Type 0} → ℤ → ℕ → World F → World F
keep_visible cutoff res w = record w {
  db = record w.db {
    agg = filter (λ r. ltb_ℤ r.created_at cutoff && r.resolution_seconds == res) w.db.agg;
  };
}

module _ {F : Type 0} (from to cutoff : ℤ) (res : ℕ) (r : AggRow F) where
  seen :
      agg_in_range from (min_ℤ to cutoff) res r ≡ true
      → (ltb_ℤ r.created_at cutoff && r.resolution_seconds == res) ≡ true
  unfolding agg_in_range in_range
  seen h = ground arith

module _ {F : Type 0} ⦃f : Float F⦄ ⦃env : Env F⦄ where
  -- The history never shows an aggregated row that starts at or after the raw cutoff, nor one of
  -- the other resolution: without all such rows every request has the same answer.
  pub get_history-blind :
      (from_ts to_ts : ℤ) (resolution_secs : ℕ) (raw_cutoff_ts : ℤ) (w : World F)
      → (get_history from_ts to_ts resolution_secs raw_cutoff_ts w).0
        ≡ (get_history from_ts to_ts resolution_secs raw_cutoff_ts
            (keep_visible raw_cutoff_ts (agg_resolution_of resolution_secs) w)).0
  unfolding get_history raw_part agg_part get_raw_snapshots_by_time_range
      get_aggregated_snapshots_by_time_range statement ◌>>=◌ pure
  get_history-blind from_ts to_ts resolution_secs raw_cutoff_ts w = ground (
    arith,
    filter-filter
        (agg_in_range from_ts (min_ℤ to_ts raw_cutoff_ts) (agg_resolution_of resolution_secs))
        (λ r.
          ltb_ℤ r.created_at raw_cutoff_ts
          && r.resolution_seconds == agg_resolution_of resolution_secs)
        (seen from_ts to_ts raw_cutoff_ts (agg_resolution_of resolution_secs)) w.db.agg,
  )
