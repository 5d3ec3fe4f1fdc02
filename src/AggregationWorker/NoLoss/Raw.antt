-- ===== src/AggregationWorker/NoLoss/Raw.antt =====
-- The first loop of `run_one_tick`: raw rows become minutes.
use mathlib.Core.List.Perm
use mathlib.Core.List.{Perm}
use homeserver_rust.Prelude.{
  ℕ, ◌≡◌, refl, sym, subst, ◌∙◌, inl, inr, Bool, true, not, List, [], ◌∷◌, map, arith, filter, Any,
  Any-append_right, Any-filter, Any-some, Any-map, filter-ne-nil,
}
use homeserver_rust.Prelude.Int.{ℤ}
use homeserver_rust.Float.{Float}
use homeserver_rust.Models.{FullSystemSnapshot}
use homeserver_rust.History.Db.{RawRow, Env, IsOrdering, Db, World}
use homeserver_rust.History.Db.Post.{Post, Post-statement, Post-pure, Post-bind, Post-weaken}
use homeserver_rust.History.Codec.{parse_snapshot_row}
use homeserver_rust.History.Raw.{in_range, get_raw_snapshots_by_time_range, delete_raw_range}
use homeserver_rust.AggregationWorker.{ms_per_minute, bucket_end, roll_raw_bucket}
use homeserver_rust.AggregationWorker.NoLoss.{IsMinuteOf, IsKept, IsKept-append}
use homeserver_rust.AggregationWorker.NoLoss.Save.{Post-save_if_some, aggregate_raw_some}

pub map-eq-nil : {A B : Type 0} (g : A → B) (xs : List A) → map g xs ≡ [] → xs ≡ []
map-eq-nil g [] h = refl
map-eq-nil g (x ∷ xs) h = cc

module _ {F : Type 0} ⦃f : Float F⦄ ⦃env : Env F⦄ (ordering : IsOrdering env) (r : RawRow F) where
  -- What is known once the bucket's snapshots are read: they are not empty if the row is among them.
  abbrev pub Read : ℤ → ℤ → List (FullSystemSnapshot F) → Db F → Type 0
  Read b end snapshots db =
      IsKept r db
      × (snapshots ≡ [] → Any (λ x. x ≡ r) db.raw → in_range b end r.created_at ≡ true → ⊥)

  pub Post-Read :
      (b end : ℤ) (w : World F)
      → IsKept r w.db
      → Post (IsKept r) (Read b end) (get_raw_snapshots_by_time_range b end w)
  unfolding get_raw_snapshots_by_time_range
  Post-Read b end w k =
      Post-bind (IsKept r) Rows (Read b end) _
        (λ rows w' (same, got). Post-pure (IsKept r) (Read b end) _ w' (
          rw same k,
          λ none_read here inside.
              filter-ne-nil inside_bucket w.db.raw
                (Any-map (λ x. x ≡ r) _ (λ x e. rw e inside) w.db.raw (rw same at here))
                (Perm.eq-nil (
                  Perm.symm (
                    subst (λ l. Perm l (filter inside_bucket w.db.raw))
                      (sym got ∙ map-eq-nil parse_snapshot_row rows none_read)
                      (ordering.raw_perm _)))),
        ))
        _ w (Post-statement (IsKept r) Rows _ w k (refl, refl))
    where
      inside_bucket : RawRow F → Bool
      inside_bucket x = in_range b end x.created_at

      Rows : List (RawRow F) → Db F → Type 0
      Rows rows db = (db ≡ w.db) × (rows ≡ env.order_raw (filter inside_bucket w.db.raw))

  pub Post-delete :
      (b end : ℤ) (w : World F)
      → IsKept r w.db
      → (Any (λ x. x ≡ r) w.db.raw
          → in_range b end r.created_at ≡ true
          → Any (IsMinuteOf r.created_at) w.db.agg)
      → Post (IsKept r) (λ _. IsKept r) (delete_raw_range b end w)
  unfolding delete_raw_range
  Post-delete b end w kept saved = Post-statement (IsKept r) (λ _. IsKept r) _ w kept (after kept)
    where
      after :
          IsKept r w.db
          → IsKept r
              (record w.db { raw = filter (λ x. not (in_range b end x.created_at)) w.db.raw })
      after (inr h) = inr h
      after (inl here) =
          elim (Any-filter (λ x. x ≡ r) (λ x. not (in_range b end x.created_at)) w.db.raw here) [
            | inl still ↦ inl still
            | inr cut ↦
                let (x, (same, gone)) = Any-some _ w.db.raw cut in
                inr (inl (saved here (ground arith)))
          ]

  pub keeps_raw_bucket :
      (b : ℤ) (count : ℕ) (w : World F)
      → IsKept r w.db
      → IsKept r (roll_raw_bucket b (bucket_end ms_per_minute b) count w).1.db
  unfolding roll_raw_bucket
  keeps_raw_bucket b count w k =
      Post-weaken (IsKept r) (λ _. IsKept r) (IsKept r) (λ db h. h) (λ _ db h. h) _
        (Post-bind (IsKept r) (Read b end) (λ _. IsKept r) _
          (λ snapshots w1 (kept, read).
            Post-bind (IsKept r) Saved (λ _. IsKept r) _
              (λ count' w2 (kept2, saved).
                Post-bind (IsKept r) (λ _. IsKept r) (λ _. IsKept r) _
                  (λ _ w3 h. Post-pure (IsKept r) (λ _. IsKept r) _ w3 h) _ w2
                  (Post-delete b end w2 kept2 saved))
              _ w1
              (Post-save_if_some (IsKept r) Saved _ count w1 kept
                (λ none_made n. (
                  kept,
                  λ here inside.
                      absurd (read ((aggregate_raw_some snapshots b).0 none_made) here inside),
                ))
                (λ agg blobs n made.
                  let (at, of) = (aggregate_raw_some snapshots b).1 agg made in
                  (
                    IsKept-append r _ w1.db kept,
                    λ here inside. Any-append_right _ w1.db.agg _ (inl (of, rw at inside)),
                  ))))
          _ w (Post-Read b end w k))
    where
      end : ℤ
      end = bucket_end ms_per_minute b

      Saved : ℕ → Db F → Type 0
      Saved n db =
          IsKept r db
          × (Any (λ x. x ≡ r) db.raw
              → in_range b end r.created_at ≡ true
              → Any (IsMinuteOf r.created_at) db.agg)
