-- ===== src/History/Merge/Order.antt =====
-- The order of the history of src/history_repo/history_merge.rs.
use mathlib.Core.List.Perm
use mathlib.Core.List.{Perm}
use homeserver_rust.Prelude.{
  ℕ, ◌≤◌, ◌≡◌, ap, subst, List, [], ◌∷◌, ◌++◌, All, arith, leb, Bool-cases, inl, inr,
}
use homeserver_rust.Prelude.Int.{ℤ}
use homeserver_rust.Prelude.Result.{ok}
use homeserver_rust.Float.{Float}
use homeserver_rust.Models.{FullSystemSnapshot}
use homeserver_rust.History.Db.{Env, World, pure}
use homeserver_rust.History.Db.Post.{bind-Chain}
use homeserver_rust.History.Merge.{
  insert_by_timestamp, sort_by_timestamp, thin, raw_part, agg_part, get_history,
}

module _ {F : Type 0} where
  -- No snapshot comes before an older one.
  abbrev pub Sorted : List (FullSystemSnapshot F) → Type 0
  Sorted [] = Unit
  Sorted (s ∷ rest) = All (λ t. s.timestamp ≤ t.timestamp) rest × Sorted rest

  insert-Perm :
      (s : FullSystemSnapshot F) (l : List (FullSystemSnapshot F))
      → Perm (insert_by_timestamp s l) (s ∷ l)
  unfolding insert_by_timestamp
  insert-Perm s [] = Perm.rfl
  insert-Perm s (t ∷ rest) = elim (Bool-cases (leb s.timestamp t.timestamp)) [
    | inl first ↦ rw first Perm.rfl
    | inr later ↦ rw later (Perm.trans (Perm.cons t (insert-Perm s rest)) (Perm.swap s t rest))
  ]

  sort-Perm : (l : List (FullSystemSnapshot F)) → Perm (sort_by_timestamp l) l
  unfolding sort_by_timestamp
  sort-Perm [] = Perm.rfl
  sort-Perm (s ∷ rest) =
      Perm.trans (insert-Perm s (sort_by_timestamp rest)) (Perm.cons s (sort-Perm rest))

  All-insert :
      (n : ℕ) (s : FullSystemSnapshot F) (l : List (FullSystemSnapshot F))
      → n ≤ s.timestamp
      → All (λ t. n ≤ t.timestamp) l
      → All (λ t. n ≤ t.timestamp) (insert_by_timestamp s l)
  unfolding insert_by_timestamp
  All-insert n s [] h all = (h, tt)
  All-insert n s (t ∷ rest) h all = ground (arith, All-insert n s rest h all.1)

  All-weaken :
      (m n : ℕ) (l : List (FullSystemSnapshot F))
      → m ≤ n
      → All (λ t. n ≤ t.timestamp) l
      → All (λ t. m ≤ t.timestamp) l
  All-weaken m n [] h all = tt
  All-weaken m n (t ∷ rest) h all = (omega (arith, h, all.0), All-weaken m n rest h all.1)

  insert-Sorted :
      (s : FullSystemSnapshot F) (l : List (FullSystemSnapshot F))
      → Sorted l
      → Sorted (insert_by_timestamp s l)
  unfolding insert_by_timestamp
  insert-Sorted s [] h = (tt, tt)
  insert-Sorted s (t ∷ rest) h = elim (Bool-cases (leb s.timestamp t.timestamp)) [
    | inl first ↦
        rw first ((ground arith, All-weaken s.timestamp t.timestamp rest (ground arith) h.0), h)
    | inr later ↦
        rw later (All-insert t.timestamp s rest (ground arith) h.0, insert-Sorted s rest h.1)
  ]

  sort-Sorted : (l : List (FullSystemSnapshot F)) → Sorted (sort_by_timestamp l)
  unfolding sort_by_timestamp
  sort-Sorted [] = tt
  sort-Sorted (s ∷ rest) = insert-Sorted s (sort_by_timestamp rest) (sort-Sorted rest)

module _ {F A : Type 0} {a b : A} (w : World F) where
  pure-ok : (pure a w).0 ≡ ok b → a ≡ b
  unfolding pure
  pure-ok h = cc

module _ {F : Type 0} ⦃f : Float F⦄ ⦃env : Env F⦄ (from_ts to_ts : ℤ) (resolution_secs : ℕ)
    (raw_cutoff_ts : ℤ) where
  -- A merged history: the two reads that it was made of, and their rows in order of time.
  pub record IsMerged (w : World F) (history : List (FullSystemSnapshot F)) : Type 0 where
    pub raw : List (FullSystemSnapshot F)
    pub agg : List (FullSystemSnapshot F)
    pub after_raw : World F
    pub raw_read : raw_part from_ts to_ts raw_cutoff_ts w ≡ (ok raw, after_raw)
    pub agg_read : (agg_part from_ts to_ts resolution_secs raw_cutoff_ts after_raw).0 ≡ ok agg
    pub perm : Perm history (agg ++ thin resolution_secs raw)
    pub sorted : Sorted history

  -- A history that is returned is in order of time, and holds each aggregate and each thinned raw
  -- snapshot that was read just as often as it was read.
  pub get_history-IsMerged :
      (w : World F) (history : List (FullSystemSnapshot F))
      → (get_history from_ts to_ts resolution_secs raw_cutoff_ts w).0 ≡ ok history
      → IsMerged w history
  unfolding get_history
  get_history-IsMerged w history h =
      let reads = bind-Chain (raw_part from_ts to_ts raw_cutoff_ts) _ w history h in
      let joins =
        bind-Chain (agg_part from_ts to_ts resolution_secs raw_cutoff_ts) _ reads.after history
          reads.second in
      let same = pure-ok joins.after joins.second in
      record {
        raw = reads.value;
        agg = joins.value;
        after_raw = reads.after;
        raw_read = reads.first;
        agg_read = ap (λ r. r.0) joins.first;
        perm =
            subst (λ l. Perm l (joins.value ++ thin resolution_secs reads.value)) same
              (sort-Perm _);
        sorted = subst Sorted same (sort-Sorted _);
      }
