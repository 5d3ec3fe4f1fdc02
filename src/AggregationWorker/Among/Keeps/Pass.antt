-- ===== src/AggregationWorker/Among/Keeps/Pass.antt =====
-- A whole pass among the other tasks loses no snapshot before its time.
use homeserver_rust.Prelude.{ℕ, ◌⊎◌, inl, inr, List, Option, none, some}
use homeserver_rust.Prelude.Int.{ℤ}
use homeserver_rust.Prelude.Result.{Result, ok, err}
use homeserver_rust.Float.{Float}
use homeserver_rust.History.Db.{
  RawRow, Env, IsOrdering, Db, World, Exec, DbError, clock, pure, ◌>>=◌,
}
use homeserver_rust.History.Db.Post.{
  Post, Post-statement, Post-pure, Post-raise, Post-bind, Post-weaken,
}
use homeserver_rust.History.Raw.{get_min_raw_created_at_before}
use homeserver_rust.History.AggStore.{
  get_min_aggregated_created_at_before, prune_aggregated_old_data,
}
use homeserver_rust.AggregationWorker.{AggregationWorkerConfig, ms_per_minute, ms_per_5_minutes}
use homeserver_rust.AggregationWorker.Among.{
  Other, Meanwhile, yielded, raw_round, minute_round, minutes_from, raw_from, pass,
}
use homeserver_rust.AggregationWorker.Among.Keeps.{IsGone, Fine, Fine-kept, happened-Knows}
use homeserver_rust.AggregationWorker.Among.Keeps.Raw.{keeps_raw_round}
use homeserver_rust.AggregationWorker.Among.Keeps.Minutes.{keeps_minute_round}
use homeserver_rust.AggregationWorker.NoLoss.{IsKept}
use homeserver_rust.AggregationWorker.NoLoss.Pass.{Outcome, prune-Post, roll-Post}

module _ {F : Type 0} ⦃f : Float F⦄ ⦃env : Env F⦄ (ordering : IsOrdering env) (retention_ms : ℕ)
    (m : Meanwhile F) (prune_now : Option ℕ) (r : RawRow F) where
  abbrev IsFine : Db F → Type 0
  IsFine = Fine retention_ms m.clocks r

  -- The row is kept, or had expired at the prune that ends the pass or at one in between.
  abbrev pub After : Db F → Type 0
  After db = Outcome retention_ms prune_now r db ⊎ IsGone retention_ms m.clocks r

  Fine-After : (db : Db F) → IsFine db → After db
  Fine-After db (inl here) = inl (inl (inl here.0))
  Fine-After db (inr (inl rolled)) = inl (inl (inr rolled))
  Fine-After db (inr (inr gone)) = inr gone

  to_After :
      {A : Type 0} (Q : Db F → Type 0)
      → ((db : Db F) → Q db → After db)
      → (x : Result DbError A × World F) → Post Q (λ _. Q) x
      → Post After (λ _. After) x
  to_After Q to (ok a, w) p = to w.db p
  to_After Q to (err e, w) p = to w.db p

  loosen :
      {A : Type 0} (x : Result DbError A × World F)
      → Post IsFine (λ _. IsFine) x
      → Post After (λ _. IsFine) x
  loosen (ok a, w) p = p
  loosen (err e, w) p = Fine-After w.db p

  gone-After :
      {A : Type 0}
      → IsGone retention_ms m.clocks r
      → (x : Result DbError A × World F) → Post After (λ _. After) x
  gone-After gone (ok a, w) = inr gone
  gone-After gone (err e, w) = inr gone

  prunes-After :
      (w : World F)
      → IsFine w.db
      → Post After (λ _. After) (prune_aggregated_old_data retention_ms prune_now w)
  prunes-After w k = elim k [
    | inl here ↦ from_kept (inl here.0)
    | inr (inl rolled) ↦ from_kept (inr rolled)
    | inr (inr gone) ↦ gone-After gone _
  ]
    where
      from_kept :
          IsKept r w.db
          → Post After (λ _. After) (prune_aggregated_old_data retention_ms prune_now w)
      from_kept kept =
          to_After (Outcome retention_ms prune_now r) (λ db o. inl o) _
            (prune-Post retention_ms prune_now r w kept)

  finish :
      (n : Exec F ℕ) (w : World F)
      → Post After (λ _. After) (n w)
      → Post After (λ _. After) ((n >>= λ _. pure tt) w)
  finish n w p =
      Post-bind After (λ _. After) (λ _. After) _ (λ _ w' o. Post-pure After (λ _. After) tt w' o) n
        w p

  yields :
      {X : Type 0} (others : List (Other F)) (k : Unit {0} → Exec F X) (w : World F)
      → IsFine w.db
      → ((w' : World F) → IsFine w'.db → Post After (λ _. After) (k tt w'))
      → Post After (λ _. After) ((yielded retention_ms m.clocks others >>= k) w)
  unfolding yielded
  yields others k w fine rest =
      Post-bind After (λ _. IsFine) (λ _. After) k (λ u w' h. rest w' h)
        (yielded retention_ms m.clocks others) w
        (happened-Knows retention_ms m.clocks r (λ _. Unit {0}) others w fine)

  minutes_from-Post :
      (cutoff_1min : ℤ) (oldest : Option ℤ) (w : World F)
      → IsFine w.db
      → Post After (λ _. After) (minutes_from retention_ms m prune_now cutoff_1min oldest w)
  unfolding minutes_from
  minutes_from-Post cutoff_1min none w k = finish _ w (prunes-After w k)
  minutes_from-Post cutoff_1min (some min_1min_ts) w k =
      Post-bind After (λ _. IsFine) (λ _. After) _ (λ _ w' k'. finish _ w' (prunes-After w' k')) _ w
        (loosen _ (
          roll-Post IsFine ms_per_5_minutes (minute_round retention_ms m)
            (keeps_minute_round ordering retention_ms m r) _ _ _ 0 w k))

  raw_from-Post :
      (cutoff_raw cutoff_1min : ℤ) (oldest : Option ℤ) (w : World F)
      → IsFine w.db
      → Post After (λ _. After) (raw_from retention_ms m prune_now cutoff_raw cutoff_1min oldest w)
  unfolding raw_from get_min_aggregated_created_at_before
  raw_from-Post cutoff_raw cutoff_1min none w k =
      Post-pure After (λ _. After) tt w (Fine-After w.db k)
  raw_from-Post cutoff_raw cutoff_1min (some min_ts) w k = yields _ _ w k (λ w1 k1.
      Post-bind After (λ _. IsFine) (λ _. After) _
        (λ _ w2 k2.
          Post-bind After (λ _. IsFine) (λ _. After) _
            (λ oldest w3 k3. yields _ _ w3 k3 (λ w4 k4. minutes_from-Post cutoff_1min oldest w4 k4))
            _ w2 (Post-statement After (λ _. IsFine) _ w2 (Fine-After w2.db k2) k2))
        _ w1
        (loosen _ (
          roll-Post IsFine ms_per_minute (raw_round retention_ms m)
            (keeps_raw_round ordering retention_ms m r) _ _ _ 0 w1 k1)))

  -- What is kept before a pass is kept after it, or expired.
  pub pass-IsKept :
      (config : AggregationWorkerConfig) (now : Option ℕ) (w : World F)
      → IsKept r w.db
      → After (pass retention_ms m config now prune_now w).1.db
  unfolding pass get_min_raw_created_at_before
  pass-IsKept config none w k =
      Post-weaken After (λ _. After) After (λ db h. h) (λ _ db h. h) _
        (Post-raise After (λ (_ : Unit {0}). After) clock w (inl (inl k)))
  pass-IsKept config (some now) w k =
      Post-weaken After (λ _. After) After (λ db h. h) (λ _ db h. h) _
        (Post-bind After (λ _. IsFine) (λ _. After) _
          (λ oldest w' k'. raw_from-Post _ _ oldest w' k') _ w
          (Post-statement After (λ _. IsFine) _ w (inl (inl k))
            (Fine-kept retention_ms m.clocks r w.db k)))
