-- ===== src/AggregationWorker/Among/Keeps/Minutes.antt =====
-- The second loop of a pass among the other tasks, who touch no aggregated row.
use homeserver_rust.Prelude.{
  ℕ, ◌≡◌, refl, sym, subst, ◌∙◌, ◌⊎◌, inl, inr, List, [], ◌∷◌, ◌++◌, Option, none, some, Any,
  Any-append_right, Any-some,
}
use homeserver_rust.Prelude.Int.{ℤ}
use homeserver_rust.Float.{Float}
use homeserver_rust.Models.{AggregatedSnapshot}
use homeserver_rust.History.Db.{
  RawRow, AggRow, Env, IsOrdering, Db, World, Exec, clock, pure, ◌>>=◌,
}
use homeserver_rust.History.Db.Post.{
  Post, Post-statement, Post-or_raise, Post-pure, Post-bind, Post-weaken,
}
use homeserver_rust.History.Raw.{prune_old_data}
use homeserver_rust.History.AggStore.{
  get_aggregated_snapshots_by_time_range, delete_aggregated_range,
}
use homeserver_rust.AggregationWorker.{ms_per_5_minutes, resolution_1min, bucket_end}
use homeserver_rust.AggregationWorker.Among.{
  Other, commits, prunes, Meanwhile, nth, prune_at, happened, yielded, minute_round,
}
use homeserver_rust.AggregationWorker.Among.Keeps.{
  IsGone, Fine, Fine-kept, happened-Knows, Post-yield, Post-gone, Post-loosen,
}
use homeserver_rust.AggregationWorker.NoLoss.{IsFiveOf, IsKept, IsKept-append}
use homeserver_rust.AggregationWorker.NoLoss.Save.{Post-save_if_some, aggregate_minutes_some}
use homeserver_rust.AggregationWorker.NoLoss.Minutes.{IsTaken, in_range_of_taken}
use homeserver_rust.AggregationWorker.NoLoss.Minutes

module _ {F : Type 0} ⦃f : Float F⦄ ⦃env : Env F⦄ (ordering : IsOrdering env) (retention_ms : ℕ)
    (m : Meanwhile F) (r : RawRow F) where
  abbrev IsFine : Db F → Type 0
  IsFine = Fine retention_ms m.clocks r

  -- What is known of the aggregated rows, whatever becomes of the raw ones; or the row is gone.
  abbrev Also : (List (AggRow F) → Type 0) → Db F → Type 0
  Also C db = (IsKept r db × C db.agg) ⊎ IsGone retention_ms m.clocks r

  Also-Fine : (C : List (AggRow F) → Type 0) (db : Db F) → Also C db → IsFine db
  Also-Fine C db (inl (kept, c)) = Fine-kept retention_ms m.clocks r db kept
  Also-Fine C db (inr gone) = inr (inr gone)

  prune_at-agg :
      (o : Option (Option ℕ)) (w : World F) → (prune_at retention_ms o w).db.agg ≡ w.db.agg
  unfolding prune_old_data
  prune_at-agg none w = refl
  prune_at-agg (some now) w =
      Post-weaken Same (λ (_ : Unit {0}). Same) Same (λ db h. h) (λ _ db h. h) _
        (Post-bind Same (λ (_ : ℤ). Same) (λ _. Same) _
          (λ cutoff w' h. Post-statement Same (λ _. Same) _ w' h h) _ w
          (Post-or_raise Same (λ _. Same) clock _ w refl (λ cutoff at. refl)))
    where
      Same : Db F → Type 0
      Same db = db.agg ≡ w.db.agg

  happened-agg :
      (others : List (Other F)) (w : World F)
      → (happened retention_ms m.clocks others w).db.agg ≡ w.db.agg
  happened-agg [] w = refl
  happened-agg (commits rows ∷ rest) w = happened-agg rest _
  happened-agg (prunes i ∷ rest) w = happened-agg rest _ ∙ prune_at-agg (nth m.clocks i) w

  happened-Also :
      (C : List (AggRow F) → Type 0) (others : List (Other F)) (w : World F)
      → Also C w.db
      → Also C (happened retention_ms m.clocks others w).db
  happened-Also C others w (inr gone) = inr gone
  happened-Also C others w (inl (kept, c)) =
      elim (happened-Knows retention_ms m.clocks r (λ _. Unit {0}) others w
        (Fine-kept retention_ms m.clocks r w.db kept)) [
          | inl here ↦ inl (inl here.0, still)
          | inr (inl rolled) ↦ inl (inr rolled, still)
          | inr (inr gone) ↦ inr gone
        ]
    where
      still : C (happened retention_ms m.clocks others w).db.agg
      still = subst C (sym (happened-agg others w)) c

  Post-yields :
      {X : Type 0} (C : List (AggRow F) → Type 0) (Q : X → Db F → Type 0) (others : List (Other F))
      (k : Unit {0} → Exec F X) (w : World F)
      → Also C w.db
      → ((w' : World F) → Also C w'.db → Post IsFine Q (k tt w'))
      → Post IsFine Q ((yielded retention_ms m.clocks others >>= k) w)
  unfolding yielded
  Post-yields C Q others k w also rest =
      Post-bind IsFine (λ _. Also C) Q k (λ u w' h. rest w' h)
        (yielded retention_ms m.clocks others) w (happened-Also C others w also)

  -- The minutes that were read are not empty if one of the row's is among them.
  abbrev Unread : ℤ → ℤ → List (AggregatedSnapshot F) → List (AggRow F) → Type 0
  Unread b end aggs agg = aggs ≡ [] → Any (IsTaken ordering r b end) agg → ⊥

  -- Five minutes stand for the minutes that were taken up.
  abbrev Fived : ℤ → ℤ → List (AggRow F) → Type 0
  Fived b end agg = Any (IsTaken ordering r b end) agg → Any (IsFiveOf r.created_at) agg

  Post-Unread :
      (b end : ℤ) (w : World F)
      → IsFine w.db
      → Post IsFine
          (λ aggs. Also (Unread b end aggs))
          (get_aggregated_snapshots_by_time_range b end resolution_1min w)
  Post-Unread b end w k = elim k [
    | inl here ↦ from_kept (inl here.0)
    | inr (inl rolled) ↦ from_kept (inr rolled)
    | inr (inr gone) ↦
        Post-gone retention_ms m.clocks r (λ aggs. Also (Unread b end aggs)) (λ _ db. inr gone) gone
          _
  ]
    where
      from_kept :
          IsKept r w.db
          → Post IsFine
              (λ aggs. Also (Unread b end aggs))
              (get_aggregated_snapshots_by_time_range b end resolution_1min w)
      from_kept kept =
          Post-loosen retention_ms m.clocks r (Minutes.Read ordering r b end)
            (λ aggs. Also (Unread b end aggs)) (λ aggs db p. inl p) _
            (Minutes.Post-Read ordering r b end w kept)

  Post-WasDeleted :
      (b end : ℤ) (count : ℕ) (w : World F)
      → Also (Fived b end) w.db
      → Post IsFine (λ _. IsFine) (delete_aggregated_range b end resolution_1min w)
  Post-WasDeleted b end count w (inl saved) =
      Post-loosen retention_ms m.clocks r (λ _. IsKept r) (λ _. IsFine)
        (λ _ db p. Fine-kept retention_ms m.clocks r db p) _
        (Minutes.Post-delete ordering r b end count w saved)
  Post-WasDeleted b end count w (inr gone) =
      Post-gone retention_ms m.clocks r (λ _. IsFine) (λ _ db. inr (inr gone)) gone _

  saved_none :
      (b end : ℤ) (aggs : List (AggregatedSnapshot F)) (db : Db F)
      → aggs ≡ []
      → Also (Unread b end aggs) db
      → Also (Fived b end) db
  saved_none b end aggs db empty (inl (kept, read)) = inl (kept, λ taken. absurd (read empty taken))
  saved_none b end aggs db empty (inr gone) = inr gone

  saved_some :
      (b end : ℤ) (aggs : List (AggregatedSnapshot F)) (db : Db F) (row : AggRow F)
      → ((a : AggRow F) → IsTaken ordering r b end a → IsFiveOf r.created_at row)
      → Also (Unread b end aggs) db
      → Also (Fived b end) (record db { agg = db.agg ++ row ∷ [] })
  saved_some b end aggs db row of (inl (kept, read)) = inl (
    IsKept-append r _ db kept,
    λ taken. let (a, t) = Any-some _ _ taken in Any-append_right _ db.agg _ (inl (of a t)),
  )
  saved_some b end aggs db row of (inr gone) = inr gone

  -- What follows the save of a bucket.
  deletes :
      (b end : ℤ) (count : ℕ) (w : World F)
      → Also (Fived b end) w.db
      → Post IsFine
          (λ _. IsFine)
          ((yielded retention_ms m.clocks (m.minute_rounds b).after_save >>= λ _.
              delete_aggregated_range b end resolution_1min >>= λ _.
              yielded retention_ms m.clocks (m.minute_rounds b).after_delete >>= λ _. pure count)
            w)
  deletes b end count w saved =
      Post-yields (Fived b end) (λ _. IsFine) _ _ w saved
        (λ w1 saved1.
          Post-bind IsFine (λ _. IsFine) (λ _. IsFine) _
            (λ _ w2 fine.
              Post-yield retention_ms m.clocks r (λ _. Unit {0}) (λ _. IsFine) _ _ w2 fine
                (λ w3 h. Post-pure IsFine (λ _. IsFine) count w3 h))
            _ w1 (Post-WasDeleted b end count w1 saved1))

  pub keeps_minute_round :
      (b : ℤ) (count : ℕ) (w : World F)
      → IsFine w.db
      → IsFine (minute_round retention_ms m b (bucket_end ms_per_5_minutes b) count w).1.db
  unfolding minute_round
  keeps_minute_round b count w k =
      Post-weaken IsFine (λ _. IsFine) IsFine (λ db h. h) (λ _ db h. h) _
        (Post-bind IsFine (λ aggs. Also (Unread b end aggs)) (λ _. IsFine) _
          (λ aggs w1 read.
            Post-yields (Unread b end aggs) (λ _. IsFine) _ _ w1 read
              (λ w2 read2.
                Post-bind IsFine (λ _. Also (Fived b end)) (λ _. IsFine) _
                  (λ count' w3 saved. deletes b end count' w3 saved) _ w2
                  (Post-save_if_some IsFine (λ _. Also (Fived b end)) _ count w2
                    (Also-Fine (Unread b end aggs) w2.db read2)
                    (λ none_made n.
                      saved_none b end aggs w2.db ((aggregate_minutes_some aggs b).0 none_made)
                        read2)
                    (λ agg blobs n made.
                      let (at, of) = (aggregate_minutes_some aggs b).1 agg made in
                      saved_some b end aggs w2.db _
                        (λ a (minute, inside).
                          (of, (a.created_at, minute.1, rw at (in_range_of_taken b end a inside))))
                        read2))))
          _ w (Post-Unread b end w k))
    where
      end : ℤ
      end = bucket_end ms_per_5_minutes b
