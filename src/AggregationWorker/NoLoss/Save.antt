-- ===== src/AggregationWorker/NoLoss/Save.antt =====
-- What saving an aggregated row does to the database, and what the row says of its bucket.
use homeserver_rust.Prelude.{ℕ, ◌≡◌, refl, List, [], ◌∷◌, ◌++◌, Option, none, some, arith}
use homeserver_rust.Prelude.Int.{ℤ}
use homeserver_rust.Float.{Float}
use homeserver_rust.Models.{FullSystemSnapshot, AggregatedSnapshot}
use homeserver_rust.History.Db.{Blobs, Env, Db, World}
use homeserver_rust.History.Db.Post.{Post, Post-statement, Post-pure, Post-bind}
use homeserver_rust.History.Db.Still.{Post-Still}
use homeserver_rust.History.Codec.{encode_blobs}
use homeserver_rust.History.Codec.Encodes.{Still-encode_blobs}
use homeserver_rust.History.AggStore.{agg_row_of, save_aggregated_snapshot}
use homeserver_rust.History.Aggregation.{aggregate_snapshots, aggregate_aggregated_snapshots}
use homeserver_rust.AggregationWorker.{resolution_1min, resolution_5min, save_if_some}

module _ {F : Type 0} ⦃f : Float F⦄ ⦃env : Env F⦄ (E : Db F → Type 0) where
  -- Saving either fails and changes nothing or adds one row with the times of its argument.
  pub Post-save_aggregated :
      (Q : Unit {0} → Db F → Type 0) (agg : AggregatedSnapshot F) (w : World F)
      → E w.db
      → ((blobs : Blobs) → Q tt (record w.db { agg = w.db.agg ++ agg_row_of agg blobs ∷ [] }))
      → Post E Q (save_aggregated_snapshot agg w)
  unfolding save_aggregated_snapshot
  Post-save_aggregated Q agg w e q =
      Post-bind E (λ b db. db ≡ w.db) Q _
        (λ blobs w' same. Post-statement E Q _ w' (rw same e) (rw same (q blobs)))
        (encode_blobs agg.containers agg.storage agg.network agg.system agg.cpu agg.ram agg.gpus
          agg.smart)
        w (Post-Still E (λ b db. db ≡ w.db) _ w (Still-encode_blobs _ _ _ _ _ _ _ _) e (λ _. refl))

  pub Post-save_if_some :
      (Q : ℕ → Db F → Type 0) (o : Option (AggregatedSnapshot F)) (count : ℕ) (w : World F)
      → E w.db
      → (o ≡ none → (n : ℕ) → Q n w.db)
      → ((agg : AggregatedSnapshot F) (blobs : Blobs) (n : ℕ)
          → o ≡ some agg
          → Q n (record w.db { agg = w.db.agg ++ agg_row_of agg blobs ∷ [] }))
      → Post E Q (save_if_some o count w)
  unfolding save_if_some
  Post-save_if_some Q none count w e q0 q = Post-pure E Q _ w (q0 refl _)
  Post-save_if_some Q (some agg) count w e q0 q =
      Post-bind E (λ _ db. (n : ℕ) → Q n db) Q _ (λ u w' h. Post-pure E Q _ w' (h _)) _ w
        (Post-save_aggregated (λ _ db. (n : ℕ) → Q n db) agg w e (λ blobs n. q agg blobs n refl))

module _ {F : Type 0} ⦃f : Float F⦄ ⦃env : Env F⦄ where
  pub aggregate_raw_some :
      (snapshots : List (FullSystemSnapshot F)) (b : ℤ)
      → (aggregate_snapshots snapshots b resolution_1min ≡ none → snapshots ≡ [])
        × ((agg : AggregatedSnapshot F)
            → aggregate_snapshots snapshots b resolution_1min ≡ some agg
            → (agg.created_at ≡ b) × (agg.resolution_seconds ≡ resolution_1min))
  unfolding aggregate_snapshots
  aggregate_raw_some [] b = (λ _. refl, λ agg h. cc)
  aggregate_raw_some (s ∷ rest) b = (λ h. cc, λ agg h. ground arith)

  pub aggregate_minutes_some :
      (aggs : List (AggregatedSnapshot F)) (b : ℤ)
      → (aggregate_aggregated_snapshots aggs b resolution_5min ≡ none → aggs ≡ [])
        × ((agg : AggregatedSnapshot F)
            → aggregate_aggregated_snapshots aggs b resolution_5min ≡ some agg
            → (agg.created_at ≡ b) × (agg.resolution_seconds ≡ resolution_5min))
  unfolding aggregate_aggregated_snapshots
  aggregate_minutes_some [] b = (λ _. refl, λ agg h. cc)
  aggregate_minutes_some (s ∷ rest) b = (λ h. cc, λ agg h. ground arith)
