-- ===== src/History/Raw.antt =====
-- src/history_repo/raw.rs: statements on `system_history` and `system_info`.
pub mod Saves
use mathlib.Core.List.{reverse}
use homeserver_rust.Prelude.{
  ℕ, zero, suc, ◌*◌, Bool, true, false, not, ◌&&◌, List, [], ◌∷◌, ◌++◌, map, Option, none, some,
  length, filter, is_empty, if◌then◌else◌,
}
use homeserver_rust.Prelude.Int.{ℤ, pos, ◌-ℤ◌, ltb_ℤ, leb_ℤ, min_ℤ, to_i64, wrap_i64}
use homeserver_rust.Prelude.Result.{Result, ok, err}
use homeserver_rust.Float.{Float}
use homeserver_rust.Models.{FullSystemSnapshot, SystemInfo}
use homeserver_rust.History.Blob.{Bytes}
use homeserver_rust.History.Db.{
  Blobs, RawRow, Env, Db, Exec, DbError, serialization, deserialization, clock, pure, raise,
  or_raise, statement, transaction, ◌>>=◌, ◌>>◌,
}
use homeserver_rust.History.Codec.{encode_blobs, parse_snapshot_row}

-- `created_at >= from AND created_at < to`
unfoldable pub in_range : ℤ → ℤ → ℤ → Bool
in_range from to created_at = leb_ℤ from created_at && ltb_ℤ created_at to

-- SELECT MIN(…) over the values that pass a test; NULL if there is none.
unfoldable pub min_before : ℤ → List ℤ → Option ℤ
min_before cutoff [] = none
min_before cutoff (t ∷ ts) = elim (min_before cutoff ts) [
  | none ↦ if ltb_ℤ t cutoff then some t else none
  | some m ↦ some (if ltb_ℤ t cutoff then min_ℤ t m else m)
]

-- LIMIT
abbrev pub take {ℓ} : {A : Type ℓ} → ℕ → List A → List A
take zero xs = []
take (suc n) [] = []
take (suc n) (x ∷ xs) = x ∷ take n xs

-- `retention_days as i64 * 24 * 60 * 60 * 1000` of `connect`; it fits for every `u32`.
unfoldable pub retention_ms_of : ℕ → ℕ
retention_ms_of retention_days = retention_days * 24 * 60 * 60 * 1000

-- `now as i64 - retention_ms`; there is none if the clock stands before the epoch.
unfoldable pub prune_cutoff : ℕ → Option ℕ → Option ℤ
prune_cutoff retention_ms none = none
prune_cutoff retention_ms (some now) = some (wrap_i64 (to_i64 now -ℤ pos retention_ms))

module _ {F : Type 0} where
  -- The values that `save_snapshots` binds to its INSERT.
  abbrev pub raw_row_of : FullSystemSnapshot F → Blobs → RawRow F
  raw_row_of s blobs = record {
    created_at = to_i64 s.timestamp;
    cpu_load = s.cpu.usage_percent;
    memory_used = to_i64 s.ram.used;
    blobs = blobs;
  }

  abbrev pub insert_raw : RawRow F → Db F → Unit {0} × Db F
  insert_raw row db = (tt, record db { raw = db.raw ++ row ∷ [] })

  unfoldable pub prune_old_data : ℕ → Option ℕ → Exec F (Unit {0})
  prune_old_data retention_ms now = do
    cutoff ← or_raise clock (prune_cutoff retention_ms now)
    statement λ db. (tt, record db { raw = filter (λ r. not (ltb_ℤ r.created_at cutoff)) db.raw })

  unfoldable pub get_min_raw_created_at_before : ℤ → Exec F (Option ℤ)
  get_min_raw_created_at_before cutoff =
      statement λ db. (min_before cutoff (map (λ r. r.created_at) db.raw), db)

  -- The result is `rows_affected`.
  unfoldable pub delete_raw_range : ℤ → ℤ → Exec F ℕ
  delete_raw_range from to = statement λ db. (
    length (filter (λ r. in_range from to r.created_at) db.raw),
    record db { raw = filter (λ r. not (in_range from to r.created_at)) db.raw },
  )

module _ {F : Type 0} ⦃f : Float F⦄ ⦃env : Env F⦄ where
  unfoldable pub save_one : FullSystemSnapshot F → Exec F (Unit {0})
  save_one s = do
    blobs ← encode_blobs s.containers s.storage s.network s.system s.cpu s.ram s.gpus s.smart
    statement (insert_raw (raw_row_of s blobs))

  unfoldable pub save_each : List (FullSystemSnapshot F) → Exec F (Unit {0})
  save_each [] = pure tt
  save_each (s ∷ rest) = save_one s >> save_each rest

  unfoldable pub save_info : SystemInfo → Exec F (Unit {0})
  save_info system_info = do
    info_blob ← or_raise serialization (env.info.serialize system_info)
    statement λ db. (tt, record db { info = some info_blob })

  unfoldable pub save_snapshots : List (FullSystemSnapshot F) → SystemInfo → Exec F (Unit {0})
  save_snapshots snapshots system_info =
      if is_empty snapshots
      then pure tt
      else transaction (save_info system_info >> save_each snapshots)

  unfoldable pub get_stored_system_info : Exec F (Option SystemInfo)
  get_stored_system_info = do
    row ← statement λ db. (db.info, db)
    elim row [
      | none ↦ pure none
      | some blob ↦ do info ← or_raise deserialization (env.info.deserialize blob); pure (some info)
    ]

  -- The newest rows by id, turned round to ascend.
  unfoldable pub get_recent_snapshots : ℕ → Exec F (Option SystemInfo × List (FullSystemSnapshot F))
  get_recent_snapshots limit = do
    stored_info ← get_stored_system_info
    rows ← statement λ db. (take limit (reverse db.raw), db)
    pure (stored_info, reverse (map parse_snapshot_row rows))

  unfoldable pub get_raw_snapshots_by_time_range : ℤ → ℤ → Exec F (List (FullSystemSnapshot F))
  get_raw_snapshots_by_time_range from to = do
    rows ← statement λ db. (env.order_raw (filter (λ r. in_range from to r.created_at) db.raw), db)
    pure (map parse_snapshot_row rows)
