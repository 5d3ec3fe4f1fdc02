-- ===== src/AggregationWorker/Among/Keeps/Raw.antt =====
-- The first loop of a pass among the other tasks: a row that is committed after the read of its
-- bucket is not one that was there.
use homeserver_rust.Prelude.{
  ℕ, ◌≡◌, inl, inr, true, not, List, [], ◌∷◌, ◌++◌, Option, filter, Any, Any-append_left,
  Any-append_right, Any-filter, Any-some, arith,
}
use homeserver_rust.Prelude.Int.{ℤ}
use homeserver_rust.Float.{Float}
use homeserver_rust.Models.{FullSystemSnapshot}
use homeserver_rust.History.Db.{RawRow, AggRow, Env, IsOrdering, Db, World, pure, ◌>>=◌}
use homeserver_rust.History.Db.Post.{Post, Post-statement, Post-pure, Post-bind, Post-weaken}
use homeserver_rust.History.Raw.{in_range, get_raw_snapshots_by_time_range, delete_raw_range}
use homeserver_rust.AggregationWorker.{ms_per_minute, bucket_end}
use homeserver_rust.AggregationWorker.Among.{Meanwhile, yielded, raw_round}
use homeserver_rust.AggregationWorker.Among.Keeps.{
  IsRolled, Knows, Fine, Knows-Fine, Post-yield, Post-gone, Post-loosen,
}
use homeserver_rust.AggregationWorker.NoLoss.{IsMinuteOf, IsKept}
use homeserver_rust.AggregationWorker.NoLoss.Save.{Post-save_if_some, aggregate_raw_some}
use homeserver_rust.AggregationWorker.NoLoss.Raw

module _ {F : Type 0} (r : RawRow F) where
  pub IsRolled-append :
      (retention_ms : ℕ) (clocks : List (Option ℕ)) (agg rows : List (AggRow F))
      → IsRolled retention_ms clocks r agg
      → IsRolled retention_ms clocks r (agg ++ rows)
  IsRolled-append retention_ms clocks agg rows (inl h) = inl (Any-append_left _ _ rows h)
  IsRolled-append retention_ms clocks agg rows (inr h) = inr (Any-append_left _ _ rows h)

module _ {F : Type 0} ⦃f : Float F⦄ ⦃env : Env F⦄ (ordering : IsOrdering env) (retention_ms : ℕ)
    (m : Meanwhile F) (r : RawRow F) where
  abbrev IsFine : Db F → Type 0
  IsFine = Fine retention_ms m.clocks r

  abbrev Unread : ℤ → ℤ → List (FullSystemSnapshot F) → List (AggRow F) → Type 0
  Unread b end snapshots agg = snapshots ≡ [] → in_range b end r.created_at ≡ true → ⊥

  abbrev Minuted : ℤ → ℤ → List (AggRow F) → Type 0
  Minuted b end agg = in_range b end r.created_at ≡ true → Any (IsMinuteOf r.created_at) agg

  -- The snapshots that were read are not empty if the row is one of the bucket.
  abbrev WasRead : ℤ → ℤ → List (FullSystemSnapshot F) → Db F → Type 0
  WasRead b end snapshots = Knows retention_ms m.clocks r (Unread b end snapshots)

  -- A minute stands for the row if it is one of the bucket.
  abbrev WasSaved : ℤ → ℤ → Db F → Type 0
  WasSaved b end = Knows retention_ms m.clocks r (Minuted b end)

  Post-WasRead :
      (b end : ℤ) (w : World F)
      → IsFine w.db
      → Post IsFine (WasRead b end) (get_raw_snapshots_by_time_range b end w)
  Post-WasRead b end w k = elim k [
    | inl here ↦ from_kept (inl here.0)
    | inr (inl rolled) ↦ from_kept (inr rolled)
    | inr (inr gone) ↦
        Post-gone retention_ms m.clocks r (WasRead b end) (λ _ db. inr (inr gone)) gone _
  ]
    where
      split :
          (snapshots : List (FullSystemSnapshot F)) (db : Db F)
          → Raw.Read ordering r b end snapshots db
          → WasRead b end snapshots db
      split snapshots db (inl here, read) =
          inl (here, λ none_read inside. read none_read here inside)
      split snapshots db (inr rolled, read) = inr (inl rolled)

      from_kept :
          IsKept r w.db → Post IsFine (WasRead b end) (get_raw_snapshots_by_time_range b end w)
      from_kept kept =
          Post-loosen retention_ms m.clocks r (Raw.Read ordering r b end) (WasRead b end) split _
            (Raw.Post-Read ordering r b end w kept)

  Post-WasDeleted :
      (b end : ℤ) (w : World F)
      → WasSaved b end w.db
      → Post IsFine (λ _. IsFine) (delete_raw_range b end w)
  unfolding delete_raw_range
  Post-WasDeleted b end w k =
      Post-statement IsFine (λ _. IsFine) _ w
        (Knows-Fine retention_ms m.clocks r (Minuted b end) w.db k) (after k)
    where
      after :
          WasSaved b end w.db
          → IsFine (record w.db { raw = filter (λ x. not (in_range b end x.created_at)) w.db.raw })
      after (inr rolled) = inr rolled
      after (inl (here, saved)) =
          elim (Any-filter (λ x. x ≡ r) (λ x. not (in_range b end x.created_at)) w.db.raw here) [
            | inl still ↦ inl (still, tt)
            | inr cut ↦
                let (x, (same, gone)) = Any-some _ w.db.raw cut in
                inr (inl (inl (saved (ground arith))))
          ]

  saved_none :
      (b end : ℤ) (snapshots : List (FullSystemSnapshot F)) (db : Db F)
      → snapshots ≡ []
      → WasRead b end snapshots db
      → WasSaved b end db
  saved_none b end snapshots db empty (inl (here, read)) =
      inl (here, λ inside. absurd (read empty inside))
  saved_none b end snapshots db empty (inr k) = inr k

  saved_some :
      (b end : ℤ) (snapshots : List (FullSystemSnapshot F)) (db : Db F) (row : AggRow F)
      → (in_range b end r.created_at ≡ true → IsMinuteOf r.created_at row)
      → WasRead b end snapshots db
      → WasSaved b end (record db { agg = db.agg ++ row ∷ [] })
  saved_some b end snapshots db row of (inl (here, read)) =
      inl (here, λ inside. Any-append_right _ db.agg _ (inl (of inside)))
  saved_some b end snapshots db row of (inr (inl k)) =
      inr (inl (IsRolled-append r retention_ms m.clocks db.agg _ k))
  saved_some b end snapshots db row of (inr (inr gone)) = inr (inr gone)

  -- What follows the save of a bucket.
  deletes :
      (b end : ℤ) (count : ℕ) (w : World F)
      → WasSaved b end w.db
      → Post IsFine
          (λ _. IsFine)
          ((yielded retention_ms m.clocks (m.raw_rounds b).after_save >>= λ _.
              delete_raw_range b end >>= λ _.
              yielded retention_ms m.clocks (m.raw_rounds b).after_delete >>= λ _. pure count)
            w)
  deletes b end count w saved =
      Post-yield retention_ms m.clocks r (Minuted b end) (λ _. IsFine) _ _ w saved
        (λ w1 saved1.
          Post-bind IsFine (λ _. IsFine) (λ _. IsFine) _
            (λ _ w2 fine.
              Post-yield retention_ms m.clocks r (λ _. Unit {0}) (λ _. IsFine) _ _ w2 fine
                (λ w3 h. Post-pure IsFine (λ _. IsFine) count w3 h))
            _ w1 (Post-WasDeleted b end w1 saved1))

  pub keeps_raw_round :
      (b : ℤ) (count : ℕ) (w : World F)
      → IsFine w.db
      → IsFine (raw_round retention_ms m b (bucket_end ms_per_minute b) count w).1.db
  unfolding raw_round
  keeps_raw_round b count w k =
      Post-weaken IsFine (λ _. IsFine) IsFine (λ db h. h) (λ _ db h. h) _
        (Post-bind IsFine (WasRead b end) (λ _. IsFine) _
          (λ snapshots w1 read.
            Post-yield retention_ms m.clocks r (Unread b end snapshots) (λ _. IsFine) _ _ w1 read
              (λ w2 read2.
                Post-bind IsFine (λ _. WasSaved b end) (λ _. IsFine) _
                  (λ count' w3 saved. deletes b end count' w3 saved) _ w2
                  (Post-save_if_some IsFine (λ _. WasSaved b end) _ count w2
                    (Knows-Fine retention_ms m.clocks r (Unread b end snapshots) w2.db read2)
                    (λ none_made n.
                      saved_none b end snapshots w2.db
                        ((aggregate_raw_some snapshots b).0 none_made) read2)
                    (λ agg blobs n made.
                      let (at, of) = (aggregate_raw_some snapshots b).1 agg made in
                      saved_some b end snapshots w2.db _ (λ inside. (of, rw at inside)) read2))))
          _ w (Post-WasRead b end w k))
    where
      end : ℤ
      end = bucket_end ms_per_minute b
