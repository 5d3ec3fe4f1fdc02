-- ===== src/AggregationWorker/Among/Keeps.antt =====
-- What stands for a raw row in a pass of src/aggregation_worker.rs that the other tasks go between.
pub mod Raw
pub mod Minutes
pub mod Pass
use homeserver_rust.Prelude.{
  ℕ, zero, suc, ◌≡◌, refl, sym, subst, ◌⊎◌, inl, inr, true, not, List, [], ◌∷◌, Option, none, some,
  filter, Any, Any-append_left, Any-filter, Any-some, arith,
}
use homeserver_rust.Prelude.Int.{ℤ, ltb_ℤ}
use homeserver_rust.Prelude.Options
use homeserver_rust.Prelude.Result.{Result, ok, err}
use homeserver_rust.History.Db.{RawRow, AggRow, Db, DbError, World, Exec, clock, ◌>>=◌}
use homeserver_rust.History.Db.Post.{Post, Post-statement, Post-or_raise, Post-bind, Post-weaken}
use homeserver_rust.History.Raw.{prune_cutoff, prune_old_data}
use homeserver_rust.AggregationWorker.Among.{
  Other, commits, prunes, nth, prune_at, happened, yielded,
}
use homeserver_rust.AggregationWorker.NoLoss.{IsMinuteOf, IsFiveOf, IsKept}
use homeserver_rust.AggregationWorker.NoLoss.Pass.{IsPruned}

module _ {F : Type 0} (retention_ms : ℕ) (clocks : List (Option ℕ)) (r : RawRow F) where
  -- The row was old enough for a prune of the sampling worker.
  abbrev pub IsGone : Type 0
  IsGone = Any (λ now. IsPruned retention_ms now r.created_at) clocks

  -- An aggregated row stands for the row.
  abbrev pub IsRolled : List (AggRow F) → Type 0
  IsRolled agg = Any (IsMinuteOf r.created_at) agg ⊎ Any (IsFiveOf r.created_at) agg

  -- The row is still there and `A` is known of the aggregated ones, or it needs no more.
  abbrev pub Knows : (List (AggRow F) → Type 0) → Db F → Type 0
  Knows A db = (Any (λ x. x ≡ r) db.raw × A db.agg) ⊎ IsRolled db.agg ⊎ IsGone

  -- It is kept or gone.
  abbrev pub Fine : Db F → Type 0
  Fine = Knows (λ _. Unit {0})

  pub Fine-kept : (db : Db F) → IsKept r db → Fine db
  Fine-kept db (inl here) = inl (here, tt)
  Fine-kept db (inr k) = inr (inl k)

  pub Knows-Fine : (A : List (AggRow F) → Type 0) (db : Db F) → Knows A db → Fine db
  Knows-Fine A db (inl (here, a)) = inl (here, tt)
  Knows-Fine A db (inr k) = inr k

  nth-IsGone :
      (P : Option ℕ → Type 0) (cs : List (Option ℕ)) (i : ℕ) (now : Option ℕ)
      → nth cs i ≡ some now
      → P now
      → Any P cs
  nth-IsGone P [] i now h p = cc
  nth-IsGone P (c ∷ cs) zero now h p = inl (subst (λ o. Options.Holds P o) (sym h) p)
  nth-IsGone P (c ∷ cs) (suc i) now h p = inr (nth-IsGone P cs i now h p)

  -- What the other tasks do takes a row away only by a prune, and touches no aggregated row.
  module _ (A : List (AggRow F) → Type 0) where
    cut :
        (now : Option ℕ) (cutoff : ℤ)
        → (IsPruned retention_ms now r.created_at → IsGone)
        → prune_cutoff retention_ms now ≡ some cutoff
        → (db : Db F) → Knows A db
        → Knows A (record db { raw = filter (λ x. not (ltb_ℤ x.created_at cutoff)) db.raw })
    cut now cutoff goes at db (inr k) = inr k
    cut now cutoff goes at db (inl (here, a)) =
        elim (Any-filter (λ x. x ≡ r) (λ x. not (ltb_ℤ x.created_at cutoff)) db.raw here) [
          | inl still ↦ inl (still, a)
          | inr gone ↦
              let (x, (same, old)) = Any-some _ db.raw gone in
              inr (
                inr (
                  goes (record {
                    cutoff = cutoff;
                    read = at;
                    before = subst (λ y. ltb_ℤ y.created_at cutoff ≡ true) same (ground arith);
                  })))
        ]

    prune_old_data-Knows :
        (now : Option ℕ) (w : World F)
        → (IsPruned retention_ms now r.created_at → IsGone)
        → Knows A w.db
        → Knows A (prune_old_data retention_ms now w).1.db
    unfolding prune_old_data
    prune_old_data-Knows now w goes k =
        Post-weaken (Knows A) (λ (_ : Unit {0}). Knows A) (Knows A) (λ db h. h) (λ _ db h. h) _
          (Post-bind (Knows A) Read (λ _. Knows A) _
            (λ cutoff w' (at, knows).
              Post-statement (Knows A) (λ _. Knows A) _ w' knows
                (cut now cutoff goes at w'.db knows))
            _ w (Post-or_raise (Knows A) Read clock _ w k (λ cutoff at. (at, k))))
      where
        Read : ℤ → Db F → Type 0
        Read cutoff db = (prune_cutoff retention_ms now ≡ some cutoff) × Knows A db

    prune_at-Knows :
        (o : Option (Option ℕ)) (w : World F)
        → ((now : Option ℕ) → o ≡ some now → IsPruned retention_ms now r.created_at → IsGone)
        → Knows A w.db
        → Knows A (prune_at retention_ms o w).db
    prune_at-Knows none w goes k = k
    prune_at-Knows (some now) w goes k = prune_old_data-Knows now w (goes now refl) k

    pub happened-Knows :
        (others : List (Other F)) (w : World F)
        → Knows A w.db
        → Knows A (happened retention_ms clocks others w).db
    happened-Knows [] w k = k
    happened-Knows (commits rows ∷ rest) w (inl (here, a)) =
        happened-Knows rest _ (inl (Any-append_left _ _ rows here, a))
    happened-Knows (commits rows ∷ rest) w (inr k) = happened-Knows rest _ (inr k)
    happened-Knows (prunes i ∷ rest) w k =
        happened-Knows rest _
          (prune_at-Knows (nth clocks i) w (λ now at pruned. nth-IsGone _ clocks i now at pruned) k)

  -- After a failure the row is at least kept or gone; what is gone needs no more.
  pub Post-gone :
      {X : Type 0} (Q : X → Db F → Type 0)
      → ((x : X) (db : Db F) → Q x db)
      → IsGone
      → (res : Result DbError X × World F) → Post Fine Q res
  Post-gone Q q gone (ok x, w) = q x w.db
  Post-gone Q q gone (err e, w) = inr (inr gone)

  pub Post-loosen :
      {X : Type 0} (P Q : X → Db F → Type 0)
      → ((x : X) (db : Db F) → P x db → Q x db)
      → (res : Result DbError X × World F) → Post (IsKept r) P res
      → Post Fine Q res
  Post-loosen P Q to (ok x, w) p = to x w.db p
  Post-loosen P Q to (err e, w) k = Fine-kept w.db k

  -- What the pass knows it still knows when the others have gone on.
  pub Post-yield :
      {X : Type 0} (A : List (AggRow F) → Type 0) (Q : X → Db F → Type 0) (others : List (Other F))
      (k : Unit {0} → Exec F X) (w : World F)
      → Knows A w.db
      → ((w' : World F) → Knows A w'.db → Post Fine Q (k tt w'))
      → Post Fine Q ((yielded retention_ms clocks others >>= k) w)
  unfolding yielded
  Post-yield A Q others k w knows rest =
      Post-bind Fine (λ _. Knows A) Q k (λ u w' h. rest w' h) (yielded retention_ms clocks others) w
        (happened-Knows A others w knows)
