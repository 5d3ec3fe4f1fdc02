-- ===== src/AggregationWorker/Skips.antt =====
-- When a pass of `run_one_tick` does nothing.
use homeserver_rust.Prelude.{
  ℕ, ◌≡◌, refl, false, List, [], ◌∷◌, map, Option, none, some, All, arith,
}
use homeserver_rust.Prelude.Int.{ℤ, ltb_ℤ}
use homeserver_rust.Float.{Float}
use homeserver_rust.History.Db.{RawRow, Env, World, pure, statement, ◌>>=◌}
use homeserver_rust.History.Raw.{min_before, get_min_raw_created_at_before}
use homeserver_rust.AggregationWorker.{
  AggregationWorkerConfig, hours_before, roll_raw_from, run_one_tick,
}

min_before-none :
    {F : Type 0} (cutoff : ℤ) (rows : List (RawRow F))
    → All (λ r. ltb_ℤ r.created_at cutoff ≡ false) rows
    → min_before cutoff (map (λ r. r.created_at) rows) ≡ none
unfolding min_before
min_before-none cutoff [] h = refl
min_before-none cutoff (r ∷ rows) h = ground (arith, min_before-none cutoff rows h.1)

module _ {F : Type 0} ⦃f : Float F⦄ ⦃env : Env F⦄ where
  -- If the clock can be read and no raw row is older than the raw retention, a pass changes
  -- nothing: no minute is rolled up and no aggregated row is pruned, however old it is.
  pub run_one_tick-idle :
      (config : AggregationWorkerConfig) (retention_ms now : ℕ) (prune_now : Option ℕ) (w : World F)
      → All (λ r. ltb_ℤ r.created_at (hours_before now config.raw_retention_hours) ≡ false) w.db.raw
      → (run_one_tick config retention_ms (some now) prune_now w).1.db ≡ w.db
  unfolding run_one_tick roll_raw_from get_min_raw_created_at_before statement ◌>>=◌ pure
  run_one_tick-idle config retention_ms now prune_now w recent =
      ground (arith, min_before-none (hours_before now config.raw_retention_hours) w.db.raw recent)
