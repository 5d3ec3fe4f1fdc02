-- ===== src/History/AggStore/Saves.antt =====
-- What `save_aggregated_snapshot` of src/history_repo/agg_store.rs leaves in the table.
use mathlib.Core.List.{map-append}
use homeserver_rust.Prelude.{◌≡◌, refl, [], ◌∷◌, ◌++◌, map}
use homeserver_rust.Float.{Float}
use homeserver_rust.Models.{AggregatedSnapshot}
use homeserver_rust.History.Db.{Blobs, Env, IsExactEnv, Db, World}
use homeserver_rust.History.Db.Post.{Post, Post-statement, Post-bind}
use homeserver_rust.History.Codec.{parse_aggregated_row}
use homeserver_rust.History.Codec.Reads.{Post-encode_blobs, parse-agg_row_of}
use homeserver_rust.History.AggStore.{agg_row_of, save_aggregated_snapshot}

module _ {F : Type 0} ⦃f : Float F⦄ ⦃env : Env F⦄ where
  -- The aggregate stands at the end of the table, and the raw rows are as before.
  abbrev pub Added : Db F → AggregatedSnapshot F → Db F → Type 0
  Added before agg db =
      (map parse_aggregated_row db.agg ≡ map parse_aggregated_row before.agg ++ agg ∷ [])
      × (db.raw ≡ before.raw)

  module _ (exact : IsExactEnv env) where
    -- If the parsers are exact, saving an aggregate either fails and leaves the database as it
    -- was, or the table afterwards reads as before with this aggregate at its end, and the raw
    -- rows are as before.
    pub save_aggregated_snapshot-Post :
        (agg : AggregatedSnapshot F) (w : World F)
        → Post (λ db. db ≡ w.db) (λ _. Added w.db agg) (save_aggregated_snapshot agg w)
    unfolding save_aggregated_snapshot
    save_aggregated_snapshot-Post agg w =
        Post-bind (λ db. db ≡ w.db) Row (λ _. Added w.db agg) _
          (λ blobs w' row. Post-statement (λ db. db ≡ w.db) (λ _. Added w.db agg) _ w' row.0 row.1)
          _ w
          (Post-encode_blobs exact (λ db. db ≡ w.db) Row _ _ _ _ _ _ _ _ w refl
            (λ blobs holds. (
              refl,
              (
                rw
                    (
                      map-append parse_aggregated_row w.db.agg (agg_row_of agg blobs ∷ []),
                      parse-agg_row_of agg blobs holds,
                    )
                    refl,
                refl,
              ),
            )))
      where
        Row : Blobs → Db F → Type 0
        Row blobs db =
            (db ≡ w.db) × Added w.db agg (record db { agg = db.agg ++ agg_row_of agg blobs ∷ [] })
