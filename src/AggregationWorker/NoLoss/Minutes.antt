-- ===== src/AggregationWorker/NoLoss/Minutes.antt =====
-- The second loop of `run_one_tick`: minutes become five minutes.
use mathlib.Core.List.Perm
use mathlib.Core.List.{Perm}
use homeserver_rust.Prelude.{
  ℕ, ◌≡◌, refl, sym, subst, ◌∙◌, inl, inr, Bool, true, false, not, List, [], arith, filter, Any,
  Any-append_right, Any-filter, Any-some, Any-map, filter-ne-nil,
}
use homeserver_rust.Prelude.Int.{ℤ}
use homeserver_rust.Float.{Float}
use homeserver_rust.Models.{AggregatedSnapshot}
use homeserver_rust.History.Db.{RawRow, AggRow, Env, IsOrdering, Db, World}
use homeserver_rust.History.Db.Post.{Post, Post-statement, Post-pure, Post-bind, Post-weaken}
use homeserver_rust.History.Raw.{in_range}
use homeserver_rust.History.AggStore.{
  agg_in_range, get_aggregated_snapshots_by_time_range, delete_aggregated_range,
}
use homeserver_rust.AggregationWorker.{
  ms_per_5_minutes, resolution_1min, resolution_5min, bucket_end, roll_minute_bucket,
}
use homeserver_rust.AggregationWorker.NoLoss.{IsMinuteOf, IsFiveOf, IsKept, IsKept-append}
use homeserver_rust.AggregationWorker.NoLoss.Save.{Post-save_if_some, aggregate_minutes_some}
use homeserver_rust.AggregationWorker.NoLoss.Raw.{map-eq-nil}
use homeserver_rust.History.Codec.{parse_aggregated_row}

module _ {F : Type 0} (b end : ℤ) (a : AggRow F) where
  not-taken_of_five :
      a.resolution_seconds ≡ resolution_5min
      → not (agg_in_range b end resolution_1min a) ≡ false
      → ⊥
  unfolding agg_in_range
  not-taken_of_five five gone = ground arith

  pub in_range_of_taken :
      agg_in_range b end resolution_1min a ≡ true → in_range b end a.created_at ≡ true
  unfolding agg_in_range
  in_range_of_taken taken = ground arith

module _ {F : Type 0} ⦃f : Float F⦄ ⦃env : Env F⦄ (ordering : IsOrdering env) (r : RawRow F) where
  -- A minute of the row's time that a round of the loop takes up.
  abbrev pub IsTaken : ℤ → ℤ → AggRow F → Type 0
  IsTaken b end a = IsMinuteOf r.created_at a × (agg_in_range b end resolution_1min a ≡ true)

  -- What is known once the minutes are read: they are not empty if one of the row is among them.
  abbrev pub Read : ℤ → ℤ → List (AggregatedSnapshot F) → Db F → Type 0
  Read b end aggs db = IsKept r db × (aggs ≡ [] → Any (IsTaken b end) db.agg → ⊥)

  -- What is known once the five minutes are saved: they stand for the minutes taken up.
  abbrev pub Saved : ℤ → ℤ → ℕ → Db F → Type 0
  Saved b end n db = IsKept r db × (Any (IsTaken b end) db.agg → Any (IsFiveOf r.created_at) db.agg)

  pub Post-Read :
      (b end : ℤ) (w : World F)
      → IsKept r w.db
      → Post
          (IsKept r)
          (Read b end)
          (get_aggregated_snapshots_by_time_range b end resolution_1min w)
  unfolding get_aggregated_snapshots_by_time_range
  Post-Read b end w k =
      Post-bind (IsKept r) Rows (Read b end) _
        (λ rows w' (same, got). Post-pure (IsKept r) (Read b end) _ w' (
          rw same k,
          λ none_read taken.
              filter-ne-nil (agg_in_range b end resolution_1min) w.db.agg
                (Any-map (IsTaken b end) _ (λ a t. t.1) w.db.agg (rw same at taken))
                (Perm.eq-nil (
                  Perm.symm (
                    subst (λ l. Perm l (filter (agg_in_range b end resolution_1min) w.db.agg))
                      (sym got ∙ map-eq-nil parse_aggregated_row rows none_read)
                      (ordering.agg_perm _)))),
        ))
        _ w (Post-statement (IsKept r) Rows _ w k (refl, refl))
    where
      Rows : List (AggRow F) → Db F → Type 0
      Rows rows db =
          (db ≡ w.db)
          × (rows ≡ env.order_agg (filter (agg_in_range b end resolution_1min) w.db.agg))

  pub Post-delete :
      (b end : ℤ) (count : ℕ) (w : World F)
      → Saved b end count w.db
      → Post (IsKept r) (λ _. IsKept r) (delete_aggregated_range b end resolution_1min w)
  unfolding delete_aggregated_range
  Post-delete b end count w (kept, saved) =
      Post-statement (IsKept r) (λ _. IsKept r) _ w kept (after kept)
    where
      stays : AggRow F → Bool
      stays a = not (agg_in_range b end resolution_1min a)

      five :
          Any (IsFiveOf r.created_at) w.db.agg → Any (IsFiveOf r.created_at) (filter stays w.db.agg)
      five h = elim (Any-filter (IsFiveOf r.created_at) stays w.db.agg h) [
        | inl still ↦ still
        | inr cut ↦
            let (a, (five, gone)) = Any-some _ w.db.agg cut in
            absurd (not-taken_of_five b end a five.0 gone)
      ]

      after : IsKept r w.db → IsKept r (record w.db { agg = filter stays w.db.agg })
      after (inl here) = inl here
      after (inr (inr h)) = inr (inr (five h))
      after (inr (inl h)) = elim (Any-filter (IsMinuteOf r.created_at) stays w.db.agg h) [
        | inl still ↦ inr (inl still)
        | inr cut ↦ inr (
            inr (
              five (
                saved (Any-map _ (IsTaken b end) (λ a (m, gone). (m, ground arith)) w.db.agg cut))))
      ]

  pub keeps_minute_bucket :
      (b : ℤ) (count : ℕ) (w : World F)
      → IsKept r w.db
      → IsKept r (roll_minute_bucket b (bucket_end ms_per_5_minutes b) count w).1.db
  unfolding roll_minute_bucket
  keeps_minute_bucket b count w k =
      Post-weaken (IsKept r) (λ _. IsKept r) (IsKept r) (λ db h. h) (λ _ db h. h) _
        (Post-bind (IsKept r) (Read b end) (λ _. IsKept r) _
          (λ aggs w1 (kept, read).
            Post-bind (IsKept r) (Saved b end) (λ _. IsKept r) _
              (λ count' w2 saved.
                Post-bind (IsKept r) (λ _. IsKept r) (λ _. IsKept r) _
                  (λ _ w3 h. Post-pure (IsKept r) (λ _. IsKept r) _ w3 h) _ w2
                  (Post-delete b end count' w2 saved))
              _ w1
              (Post-save_if_some (IsKept r) (Saved b end) _ count w1 kept
                (λ none_made n. (
                  kept,
                  λ taken. absurd (read ((aggregate_minutes_some aggs b).0 none_made) taken),
                ))
                (λ agg blobs n made.
                  let (at, of) = (aggregate_minutes_some aggs b).1 agg made in
                  (
                    IsKept-append r _ w1.db kept,
                    λ taken.
                        let (a, (minute, inside)) = Any-some _ _ taken in
                        Any-append_right _ w1.db.agg _ (
                          inl (
                            of,
                            (a.created_at, minute.1, rw at (in_range_of_taken b end a inside)),
                          )),
                  ))))
          _ w (Post-Read b end w k))
    where
      end : ℤ
      end = bucket_end ms_per_5_minutes b
