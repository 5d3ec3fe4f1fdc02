-- ===== src/AggregationWorker/Service/Keeps.antt =====
-- Over a whole run of the service of src/aggregation_worker.rs no snapshot is lost before its time.
use homeserver_rust.Prelude.{
  ℕ, ◌≡◌, subst, ◌⊎◌, inl, inr, true, not, Option, some, filter, Any, Any-append_left,
  Any-append_right, List, [], ◌∷◌, map, Any-filter, Any-some, arith,
}
use homeserver_rust.Prelude.Int.{ℤ, ltb_ℤ}
use homeserver_rust.Float.{Float}
use homeserver_rust.History.Db.{RawRow, Env, IsOrdering, Db, World, clock, touch}
use homeserver_rust.History.Db.Post.{Post-statement, Post-or_raise, Post-bind, Post-weaken}
use homeserver_rust.History.Raw.{prune_cutoff, prune_old_data}
use homeserver_rust.AggregationWorker.{AggregationWorkerConfig}
use homeserver_rust.AggregationWorker.NoLoss.{IsKept}
use homeserver_rust.AggregationWorker.NoLoss.Pass.{IsPruned, IsExpired}
use homeserver_rust.AggregationWorker.Among.Keeps.{IsGone}
use homeserver_rust.AggregationWorker.Among.Keeps.Pass.{pass-IsKept}
use homeserver_rust.AggregationWorker.Service.{
  Prune, of_pass, of_worker, Service, vacuum, vacuumed, pruned, ticked, Step, ticking, receiving,
  closed, stopping, waking, delivering, refused, saving, pruning, Run, stay, then_step,
}

module _ {F : Type 0} (retention_ms : ℕ) (r : RawRow F) where
  -- The row was old enough for the prune: itself for the worker's, its bucket for a pass's.
  abbrev pub Expires : Prune → Type 0
  Expires (of_pass now) = IsExpired retention_ms now r
  Expires (of_worker now) = IsPruned retention_ms now r.created_at

  -- The row is kept, or it had expired at a prune of the run.
  abbrev pub IsAccounted : Service F → Type 0
  IsAccounted s = IsKept r s.world.db ⊎ Any Expires s.prunes

  prune_old_data-IsKept :
      (now : Option ℕ) (w : World F)
      → IsKept r w.db
      → IsKept r (prune_old_data retention_ms now w).1.db ⊎ IsPruned retention_ms now r.created_at
  unfolding prune_old_data
  prune_old_data-IsKept now w k =
      Post-weaken After (λ (_ : Unit {0}). After) After (λ db h. h) (λ _ db h. h) _
        (Post-bind After Read (λ _. After) _
          (λ cutoff w' (at, kept).
            Post-statement After (λ _. After) _ w' (inl kept) (cut cutoff at w'.db kept))
          _ w (Post-or_raise After Read clock _ w (inl k) (λ cutoff at. (at, k))))
    where
      After : Db F → Type 0
      After db = IsKept r db ⊎ IsPruned retention_ms now r.created_at

      Read : ℤ → Db F → Type 0
      Read cutoff db = (prune_cutoff retention_ms now ≡ some cutoff) × IsKept r db

      cut :
          (cutoff : ℤ)
          → prune_cutoff retention_ms now ≡ some cutoff
          → (db : Db F) → IsKept r db
          → After (record db { raw = filter (λ x. not (ltb_ℤ x.created_at cutoff)) db.raw })
      cut cutoff at db (inr h) = inl (inr h)
      cut cutoff at db (inl h) =
          elim (Any-filter (λ x. x ≡ r) (λ x. not (ltb_ℤ x.created_at cutoff)) db.raw h) [
            | inl still ↦ inl (inl still)
            | inr gone ↦
                let (x, (same, old)) = Any-some _ db.raw gone in
                inr (record {
                  cutoff = cutoff;
                  read = at;
                  before = subst (λ y. ltb_ℤ y.created_at cutoff ≡ true) same (ground arith);
                })
          ]

module _ {F : Type 0} ⦃f : Float F⦄ ⦃env : Env F⦄ (ordering : IsOrdering env)
    (config : AggregationWorkerConfig) (retention_ms : ℕ) (r : RawRow F) where
  vacuumed-IsAccounted :
      (s : Service F) → IsAccounted retention_ms r s → IsAccounted retention_ms r (vacuumed s)
  unfolding vacuumed vacuum touch
  vacuumed-IsAccounted s (inl k) =
      Post-weaken After (λ (_ : Unit {0}). After) After (λ db h. h) (λ _ db h. h) _
        (Post-statement After (λ _. After) (λ db. (tt, db)) s.world (inl k) (inl k))
    where
      After : Db F → Type 0
      After db = IsKept r db ⊎ Any (Expires retention_ms r) s.prunes
  vacuumed-IsAccounted s (inr x) = inr x

  worker_prunes :
      (clocks : List (Option ℕ))
      → IsGone retention_ms clocks r
      → Any (Expires retention_ms r) (map of_worker clocks)
  worker_prunes [] gone = absurd gone
  worker_prunes (c ∷ rest) (inl gone) = inl gone
  worker_prunes (c ∷ rest) (inr gone) = inr (worker_prunes rest gone)

  step-IsAccounted :
      (s t : Service F)
      → Step config retention_ms s t
      → IsAccounted retention_ms r s
      → IsAccounted retention_ms r t
  unfolding pruned ticked
  step-IsAccounted s t (ticking now prune_now m running) (inl k) =
      elim (pass-IsKept ordering retention_ms m prune_now r config now s.world k) [
        | inl (inl kept) ↦ inl kept
        | inl (inr expired) ↦ inr (inl expired)
        | inr gone ↦ inr (inr (Any-append_left _ _ s.prunes (worker_prunes m.clocks gone)))
      ]
  step-IsAccounted s t (ticking now prune_now m running) (inr x) =
      inr (inr (Any-append_right _ (map of_worker m.clocks) s.prunes x))
  step-IsAccounted s t (receiving n running waits) a = vacuumed-IsAccounted _ a
  step-IsAccounted s t (closed running empty over) a = vacuumed-IsAccounted s a
  step-IsAccounted s t (stopping running) a = a
  step-IsAccounted s t (waking sleeps) a = a
  step-IsAccounted s t (delivering sends running empty) a = a
  step-IsAccounted s t (refused sends stopped) a = a
  step-IsAccounted s t (saving rows) (inl (inl here)) = inl (inl (Any-append_left _ _ rows here))
  step-IsAccounted s t (saving rows) (inl (inr k)) = inl (inr k)
  step-IsAccounted s t (saving rows) (inr x) = inr x
  step-IsAccounted s t (pruning now) (inl k) =
      elim (prune_old_data-IsKept retention_ms r now s.world k) [
        | inl kept ↦ inl kept
        | inr expired ↦ inr (inl expired)
      ]
  step-IsAccounted s t (pruning now) (inr x) = inr (inr x)

  pub Run-IsAccounted :
      (s t : Service F)
      → Run config retention_ms s t
      → IsAccounted retention_ms r s
      → IsAccounted retention_ms r t
  Run-IsAccounted s t stay a = a
  Run-IsAccounted s t (then_step {t = u} run step) a =
      step-IsAccounted u t step (Run-IsAccounted s u run a)

  -- If ORDER BY sorts and loses no row: over any run of the worker, whichever statements fail, with
  -- any commits of the writer and prunes of the sampling worker between the passes and between the
  -- statements of a pass, a raw row that was there at the start is at the end still there, or a row of its minute or of its five minutes stands for it, or
  -- it had expired at one of the prunes of the run.
  pub Run-keeps :
      (s t : Service F)
      → Any (λ x. x ≡ r) s.world.db.raw
      → Run config retention_ms s t
      → IsAccounted retention_ms r t
  Run-keeps s t here run = Run-IsAccounted s t run (inl (inl here))
