-- ===== src/History/Raw/Saves.antt =====
-- What `save_snapshots` of src/history_repo/raw.rs leaves in the table.
use mathlib.Core.List.{append_assoc, append-nil, map-append}
use homeserver_rust.Prelude.{◌<◌, ◌^◌, ◌≡◌, refl, sym, subst, List, [], ◌∷◌, ◌++◌, map, All}
use homeserver_rust.Prelude.Result.{Result, ok, err}
use homeserver_rust.Float.{Float}
use homeserver_rust.Models.{FullSystemSnapshot, SystemInfo}
use homeserver_rust.History.Db.{
  Blobs, Env, IsExactEnv, Db, World, DbError, serialization, Exec, touch, transaction, finish, ◌>>◌,
}
use homeserver_rust.History.Db.Post.{Post, Post-statement, Post-pure, Post-or_raise, Post-bind}
use homeserver_rust.History.Codec.{parse_snapshot_row}
use homeserver_rust.History.Codec.Reads.{Post-encode_blobs, parse-raw_row_of}
use homeserver_rust.History.Raw.{raw_row_of, save_one, save_each, save_info, save_snapshots}

module _ {F : Type 0} (E : Db F → Type 0) (Q : Unit {0} → Db F → Type 0) where
  finish-Post :
      (db : Db F) (r : Result DbError (Unit {0}) × World F)
      → E db
      → Post (λ _. Unit {0}) Q r
      → Post E Q (finish db r)
  finish-Post db (ok a, w) e q = q
  finish-Post db (err x, w) e q = e

  -- A transaction that does not commit leaves the database that it found.
  pub Post-transaction :
      (body : Exec F (Unit {0})) (w : World F)
      → E w.db
      → ((w' : World F) → w'.db ≡ w.db → Post (λ _. Unit {0}) Q (body w'))
      → Post E Q (transaction body w)
  unfolding transaction touch
  Post-transaction body w e q = finish-Post w.db _ e (
      Post-bind (λ _. Unit) Q Q (λ _. touch)
        (λ _ w' h. Post-statement (λ _. Unit) Q (λ db. (tt, db)) w' tt h) (touch >> body) w
        (Post-bind (λ _. Unit) (λ _ db. db ≡ w.db) Q (λ _. body) (λ _ w' same. q w' same) touch w
          (Post-statement (λ _. Unit) (λ _ db. db ≡ w.db) (λ db. (tt, db)) w tt refl)))

-- The timestamp is a `u64`.
abbrev pub IsStamped : {F : Type 0} → FullSystemSnapshot F → Type 0
IsStamped s = s.timestamp < 2 ^ 64

module _ {F : Type 0} ⦃f : Float F⦄ ⦃env : Env F⦄ where
  -- What reading the whole table would give.
  abbrev pub stored : Db F → List (FullSystemSnapshot F)
  stored db = map parse_snapshot_row db.raw

  -- The snapshots stand at the end of the table, and the aggregated rows are as before.
  abbrev pub Appended : Db F → List (FullSystemSnapshot F) → Unit {0} → Db F → Type 0
  Appended before snapshots _ db = (stored db ≡ stored before ++ snapshots) × (db.agg ≡ before.agg)

  module _ (exact : IsExactEnv env) (before : Db F) where
    save_one-Post :
        (past : List (FullSystemSnapshot F)) (s : FullSystemSnapshot F) (w : World F)
        → IsStamped s
        → Appended before past tt w.db
        → Post (λ _. Unit {0}) (Appended before (past ++ s ∷ [])) (save_one s w)
    unfolding save_one
    save_one-Post past s w small here =
        Post-bind (λ _. Unit) Row (Appended before (past ++ s ∷ [])) _
          (λ blobs w' row.
            Post-statement (λ _. Unit) (Appended before (past ++ s ∷ [])) _ w' tt row)
          _ w
          (Post-encode_blobs exact (λ _. Unit) Row _ _ _ _ _ _ _ _ w tt
            (λ blobs holds. (
              rw
                  (
                    map-append parse_snapshot_row w.db.raw (raw_row_of s blobs ∷ []),
                    parse-raw_row_of s blobs small holds,
                    here.0,
                  )
                  (append_assoc (stored before) past (s ∷ [])),
              here.1,
            )))
      where
        Row : Blobs → Db F → Type 0
        Row blobs db =
            Appended before (past ++ s ∷ []) tt
              (record db { raw = db.raw ++ raw_row_of s blobs ∷ [] })

    save_each-Post :
        (past snapshots : List (FullSystemSnapshot F)) (w : World F)
        → All IsStamped snapshots
        → Appended before past tt w.db
        → Post (λ _. Unit {0}) (Appended before (past ++ snapshots)) (save_each snapshots w)
    unfolding save_each
    save_each-Post past [] w small here =
        Post-pure (λ _. Unit) (Appended before (past ++ [])) tt w (rw (append-nil past) here)
    save_each-Post past (s ∷ rest) w small here =
        Post-bind (λ _. Unit) (Appended before (past ++ s ∷ []))
          (Appended before (past ++ s ∷ rest)) _
          (λ _ w' h.
            subst (λ all. Post (λ _. Unit) (Appended before all) (save_each rest w'))
              (append_assoc past (s ∷ []) rest) (save_each-Post (past ++ s ∷ []) rest w' small.1 h))
          _ w (save_one-Post past s w small.0 here)

  module _ (exact : IsExactEnv env) where
    -- If the parsers are exact and the timestamps are `u64`s, saving snapshots either fails and
    -- leaves the database as it was, or the table afterwards reads as before with these snapshots
    -- at its end, and the aggregated rows are as before.
    pub save_snapshots-Post :
        (snapshots : List (FullSystemSnapshot F)) (info : SystemInfo) (w : World F)
        → All IsStamped snapshots
        → Post (λ db. db ≡ w.db) (Appended w.db snapshots) (save_snapshots snapshots info w)
    unfolding save_snapshots save_info
    save_snapshots-Post [] info w small =
        Post-pure (λ db. db ≡ w.db) (Appended w.db []) tt w (sym (append-nil _), refl)
    save_snapshots-Post (s ∷ rest) info w small =
        Post-transaction (λ db. db ≡ w.db) (Appended w.db (s ∷ rest)) _ w refl
          λ w' same.
            Post-bind (λ _. Unit) (Appended w.db []) (Appended w.db (s ∷ rest)) _
              (λ _ w2 h. save_each-Post exact w.db [] (s ∷ rest) w2 small h) _ w'
              (Post-bind (λ _. Unit) (λ _ db. Appended w.db [] tt db) (Appended w.db []) _
                (λ _ w3 h. Post-statement (λ _. Unit) (Appended w.db []) _ w3 tt h) _ w'
                (Post-or_raise (λ _. Unit) (λ _ db. Appended w.db [] tt db) serialization _ w' tt
                  (λ _ _. rw same (sym (append-nil _), refl))))
