-- ===== src/AggregationWorker/NoLoss/Pass.antt =====
-- A whole pass of `run_one_tick` loses no snapshot before its time.
use homeserver_rust.Prelude.{
  ℕ, zero, suc, ◌≡◌, ◌⊎◌, inl, inr, true, not, Option, none, some, arith, filter, Any, Any-filter,
  Any-some, Bool-cases,
}
use homeserver_rust.Prelude.Int.{ℤ, leb_ℤ, ltb_ℤ}
use homeserver_rust.Prelude.Result.{Result, ok, err}
use homeserver_rust.Float.{Float}
use homeserver_rust.History.Db.{
  RawRow, Env, IsOrdering, Db, World, Exec, DbError, clock, out_of_fuel, pure, ◌>>=◌,
}
use homeserver_rust.History.Db.Post.{
  Post, Post-statement, Post-pure, Post-raise, Post-or_raise, Post-bind, Post-weaken,
}
use homeserver_rust.History.Raw.{prune_cutoff, get_min_raw_created_at_before}
use homeserver_rust.History.AggStore.{
  get_min_aggregated_created_at_before, prune_aggregated_old_data,
}
use homeserver_rust.AggregationWorker.{
  AggregationWorkerConfig, ms_per_minute, ms_per_5_minutes, bucket_end, roll_raw_bucket,
  roll_minute_bucket, roll, roll_minutes_from, roll_minutes, roll_raw_from, run_one_tick,
}
use homeserver_rust.AggregationWorker.NoLoss.{InBucket, IsMinuteOf, IsFiveOf, IsKept}
use homeserver_rust.AggregationWorker.NoLoss.Raw.{keeps_raw_bucket}
use homeserver_rust.AggregationWorker.NoLoss.Minutes.{keeps_minute_bucket}

module _ {F : Type 0} (P : Db F → Type 0) (width : ℕ) (round : ℤ → ℤ → ℕ → Exec F ℕ)
    (keeps : (b : ℤ) (count : ℕ) (w : World F)
      → P w.db
      → P (round b (bucket_end width b) count w).1.db) where
  Post-result : (r : Result _ ℕ × World F) → P r.1.db → Post P (λ _. P) r
  Post-result (ok n, w) p = p
  Post-result (err e, w) p = p

  -- What every round keeps, the loop keeps, and also when a statement of a round fails.
  pub roll-Post :
      (fuel : ℕ) (start cutoff : ℤ) (count : ℕ) (w : World F)
      → P w.db
      → Post P (λ _. P) (roll round width fuel start cutoff count w)
  unfolding roll
  roll-Post zero start cutoff count w p = Post-raise P (λ _. P) out_of_fuel w p
  roll-Post (suc fuel) start cutoff count w p =
      elim (Bool-cases (leb_ℤ (bucket_end width start) cutoff)) [
        | inl more ↦ rw more (
            Post-bind P (λ _. P) (λ _. P) _
              (λ count' w' p'. roll-Post fuel (bucket_end width start) cutoff count' w' p') _ w
              (Post-result _ (keeps start count w p)))
        | inr over ↦ rw over (Post-pure P (λ _. P) count w p)
      ]

-- The prune's cutoff, if the clock can be read.
pub record IsPruned (retention_ms : ℕ) (prune_now : Option ℕ) (b : ℤ) : Type 0 where
  pub cutoff : ℤ
  pub read : prune_cutoff retention_ms prune_now ≡ some cutoff
  pub before : ltb_ℤ b cutoff ≡ true

module _ {F : Type 0} (retention_ms : ℕ) (prune_now : Option ℕ) (r : RawRow F) where
  -- The row's bucket began before the cutoff of the prune that ends the pass.
  abbrev pub IsExpired : Type 0
  IsExpired =
      (m : ℤ) × InBucket ms_per_minute m r.created_at
      × (IsPruned retention_ms prune_now m
          ⊎ ((b : ℤ) × InBucket ms_per_5_minutes b m × IsPruned retention_ms prune_now b))

  abbrev pub Outcome : Db F → Type 0
  Outcome db = IsKept r db ⊎ IsExpired

  pruned :
      (cutoff : ℤ)
      → prune_cutoff retention_ms prune_now ≡ some cutoff
      → (db : Db F) → IsKept r db
      → Outcome (record db { agg = filter (λ a. not (ltb_ℤ a.created_at cutoff)) db.agg })
  pruned cutoff at db (inl here) = inl (inl here)
  pruned cutoff at db (inr (inl h)) =
      elim (Any-filter (IsMinuteOf r.created_at) (λ a. not (ltb_ℤ a.created_at cutoff)) db.agg h) [
        | inl still ↦ inl (inr (inl still))
        | inr cut ↦
            let (a, (minute, gone)) = Any-some _ db.agg cut in
            inr (
              a.created_at,
              minute.1,
              inl (record { cutoff = cutoff; read = at; before = ground arith }),
            )
      ]
  pruned cutoff at db (inr (inr h)) =
      elim (Any-filter (IsFiveOf r.created_at) (λ a. not (ltb_ℤ a.created_at cutoff)) db.agg h) [
        | inl still ↦ inl (inr (inr still))
        | inr cut ↦
            let (a, (five, gone)) = Any-some _ db.agg cut in
            let (m, minute, inside) = five.1 in
            inr (
              m,
              minute,
              inr (
                a.created_at,
                inside,
                record { cutoff = cutoff; read = at; before = ground arith },
              ),
            )
      ]

  pub prune-Post :
      (w : World F)
      → IsKept r w.db
      → Post Outcome (λ _. Outcome) (prune_aggregated_old_data retention_ms prune_now w)
  unfolding prune_aggregated_old_data
  prune-Post w k =
      Post-bind Outcome Read (λ _. Outcome) _
        (λ cutoff w' (at, kept).
          Post-statement Outcome (λ _. Outcome) _ w' (inl kept) (pruned cutoff at w'.db kept))
        _ w (Post-or_raise Outcome Read clock _ w (inl k) (λ cutoff at. (at, k)))
    where
      Read : ℤ → Db F → Type 0
      Read cutoff db = (prune_cutoff retention_ms prune_now ≡ some cutoff) × IsKept r db

  finish-Post :
      (m : Exec F ℕ) (w : World F)
      → Post Outcome (λ _. Outcome) (m w)
      → Post Outcome (λ _. Outcome) ((m >>= λ _. pure tt) w)
  finish-Post m w p =
      Post-bind Outcome (λ _. Outcome) (λ _. Outcome) _
        (λ _ w' o. Post-pure Outcome (λ _. Outcome) tt w' o) m w p

module _ {F : Type 0} ⦃f : Float F⦄ ⦃env : Env F⦄ (ordering : IsOrdering env) (retention_ms : ℕ)
    (prune_now : Option ℕ) (r : RawRow F) where
  -- The row is kept, or old enough for the prune at the end of the pass.
  abbrev After : Db F → Type 0
  After = Outcome retention_ms prune_now r

  loosen :
      {A : Type 0} (x : Result DbError A × World F)
      → Post (IsKept r) (λ _. IsKept r) x
      → Post After (λ _. IsKept r) x
  loosen (ok a, w) p = p
  loosen (err e, w) p = inl p

  roll_minutes_from-Post :
      (cutoff_1min : ℤ) (oldest : Option ℤ) (w : World F)
      → IsKept r w.db
      → Post After (λ _. After) (roll_minutes_from retention_ms prune_now cutoff_1min oldest w)
  unfolding roll_minutes_from
  roll_minutes_from-Post cutoff_1min none w k =
      finish-Post retention_ms prune_now r _ w (prune-Post retention_ms prune_now r w k)
  roll_minutes_from-Post cutoff_1min (some min_1min_ts) w k =
      Post-bind After (λ _. IsKept r) (λ _. After) _
        (λ _ w' k'.
          finish-Post retention_ms prune_now r _ w' (prune-Post retention_ms prune_now r w' k'))
        _ w
        (loosen _ (
          roll-Post (IsKept r) ms_per_5_minutes roll_minute_bucket (keeps_minute_bucket ordering r)
            _ _ _ 0 w k))

  roll_raw_from-Post :
      (cutoff_raw cutoff_1min : ℤ) (oldest : Option ℤ) (w : World F)
      → IsKept r w.db
      → Post After
          (λ _. After)
          (roll_raw_from retention_ms prune_now cutoff_raw cutoff_1min oldest w)
  unfolding roll_raw_from roll_minutes get_min_aggregated_created_at_before
  roll_raw_from-Post cutoff_raw cutoff_1min none w k = Post-pure After (λ _. After) tt w (inl k)
  roll_raw_from-Post cutoff_raw cutoff_1min (some min_ts) w k =
      Post-bind After (λ _. IsKept r) (λ _. After) _
        (λ _ w' k'.
          Post-bind After (λ _. IsKept r) (λ _. After) _
            (λ oldest w2 k2. roll_minutes_from-Post cutoff_1min oldest w2 k2) _ w'
            (Post-statement After (λ _. IsKept r) _ w' (inl k') k'))
        _ w
        (loosen _ (
          roll-Post (IsKept r) ms_per_minute roll_raw_bucket (keeps_raw_bucket ordering r) _ _ _ 0 w
            k))

  -- What is kept before a pass is kept after it, or expired.
  pub run_one_tick-IsKept :
      (config : AggregationWorkerConfig) (now : Option ℕ) (w : World F)
      → IsKept r w.db
      → After (run_one_tick config retention_ms now prune_now w).1.db
  unfolding run_one_tick get_min_raw_created_at_before
  run_one_tick-IsKept config none w k =
      Post-weaken After (λ _. After) After (λ db h. h) (λ _ db h. h) _
        (Post-raise After (λ (_ : Unit {0}). After) clock w (inl k))
  run_one_tick-IsKept config (some now) w k =
      Post-weaken After (λ _. After) After (λ db h. h) (λ _ db h. h) _
        (Post-bind After (λ _. IsKept r) (λ _. After) _
          (λ oldest w' k'. roll_raw_from-Post _ _ oldest w' k') _ w
          (Post-statement After (λ _. IsKept r) _ w (inl k) k))

  -- If ORDER BY sorts and loses no row: after a pass, whichever of its statements failed, a raw
  -- row that was in the database is still there, or a row of a minute or of five minutes stands
  -- for its time, or its bucket began before the cutoff of the prune at the end of the pass.
  pub run_one_tick-keeps :
      (config : AggregationWorkerConfig) (now : Option ℕ) (w : World F)
      → Any (λ x. x ≡ r) w.db.raw
      → IsKept r (run_one_tick config retention_ms now prune_now w).1.db
        ⊎ IsExpired retention_ms prune_now r
  run_one_tick-keeps config now w here = run_one_tick-IsKept config now w (inl here)
