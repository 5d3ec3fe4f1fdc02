-- ===== src/History/Schema.antt =====
-- src/history_repo/schema.rs: the schema's version, the migrations and `init`. A row is what the
-- columns hold that every version has; a transaction is one step that commits or leaves no trace.
pub mod Keeps
use homeserver_rust.Prelude.{
  ℕ, zero, suc, ◌-◌, ◌+◌, Bool, true, false, ◌||◌, ◌&&◌, String, List, [], ◌∷◌, ◌++◌, Option, none,
  some, ◌==◌, ◌=s=◌, if◌then◌else◌,
}
use homeserver_rust.Prelude.Int.{ℤ, pos, pos_part, ltb_ℤ, leb_ℤ}
use homeserver_rust.Prelude.Result.{Result, ok, err}

-- `columns` are those that migrations add; ALTER TABLE adds behind the last.
pub record Table (R : Type 0) : Type 0 where
  pub columns : List String
  pub rows : List R

-- `version` is the row of `schema_version`, and `has_info` says whether `system_info` exists.
pub record Store (R : Type 0) : Type 0 where
  pub version : Option ℤ
  pub history : Option (Table R)
  pub aggregated : Option (Table R)
  pub has_info : Bool

abbrev pub current_schema_version : ℕ
current_schema_version = 5

-- ALTER TABLE … ADD COLUMN … BLOB
pub data Alter : Type 0 where
  alter_history alter_aggregated : String → Alter

abbrev pub migrations : List (ℕ × List Alter)
migrations =
    (
      2,
      alter_history "cpu_data"
          ∷ alter_history "ram_data"
          ∷ alter_aggregated "cpu_data"
          ∷ alter_aggregated "ram_data"
          ∷ [],
    )
    ∷ (3, alter_history "gpu_data" ∷ alter_aggregated "gpu_data" ∷ [])
    ∷ (4, alter_history "smart_data" ∷ alter_aggregated "smart_data" ∷ [])
    ∷ []

-- `MIGRATIONS.iter().find(|(v, _)| *v == version)`
unfoldable pub migration_from : ℕ → List (ℕ × List Alter) → Option (List Alter)
migration_from version [] = none
migration_from version ((v, statements) ∷ rest) =
    if v == version then some statements else migration_from version rest

abbrev pub has_column : String → List String → Bool
has_column c [] = false
has_column c (d ∷ ds) = (d =s= c) || has_column c ds

-- Faults, one for each transaction to come, as for the statements of the tables.
abbrev pub Step : Type 0 → Type 0
Step R = Store R × List Bool → Result (Unit {0}) (Unit {0}) × (Store R × List Bool)

module _ {R : Type 0} where
  -- SQLite refuses an unknown table and a column that exists.
  unfoldable pub add_column : String → Option (Table R) → Option (Table R)
  add_column c none = none
  add_column c (some t) =
      if has_column c t.columns then none else some (record t { columns = t.columns ++ c ∷ [] })

  abbrev pub put_history : Store R → Option (Table R) → Option (Store R)
  put_history s none = none
  put_history s (some t) = some (record s { history = some t })

  abbrev pub put_aggregated : Store R → Option (Table R) → Option (Store R)
  put_aggregated s none = none
  put_aggregated s (some t) = some (record s { aggregated = some t })

  unfoldable pub apply_alter : Alter → Store R → Option (Store R)
  unfolding add_column
  apply_alter (alter_history c) s = put_history s (add_column c s.history)
  apply_alter (alter_aggregated c) s = put_aggregated s (add_column c s.aggregated)

  -- UPDATE changes no row if there is none.
  unfoldable pub update_version : ℤ → Store R → Store R
  update_version v s = record s { version = elim s.version [ none ↦ none | some old ↦ some v ] }

  -- The statements of one migration, and the new version.
  unfoldable pub migrate : List Alter → ℤ → Store R → Option (Store R)
  unfolding apply_alter update_version
  migrate [] v s = some (update_version v s)
  migrate (a ∷ statements) v s = elim (apply_alter a s) [
    | none ↦ none
    | some s' ↦ migrate statements v s'
  ]

  unfoldable pub drop_history_user_tables : Store R → Store R
  drop_history_user_tables s = record s { history = none; aggregated = none; has_info = false }

  abbrev pub settle :
      Store R → List Bool → Option (Store R) → Result (Unit {0}) (Unit {0}) × (Store R × List Bool)
  settle s faults none = (err tt, (s, faults))
  settle s faults (some s') = (ok tt, (s', faults))

  -- A transaction, or a statement outside of one.
  unfoldable pub atomic : (Store R → Option (Store R)) → Step R
  atomic change (s, []) = settle s [] (change s)
  atomic change (s, false ∷ more) = settle s more (change s)
  atomic change (s, true ∷ more) = (err tt, (s, more))

  abbrev pub follow :
      Result (Unit {0}) (Unit {0}) × (Store R × List Bool)
      → Step R
      → Result (Unit {0}) (Unit {0}) × (Store R × List Bool)
  follow (ok u, w) next = next w
  follow (err e, w) next = (err e, w)

  infixr 5 ◌⨟◌
  unfoldable pub ◌⨟◌ : Step R → Step R → Step R
  ◌⨟◌ first next w = follow (first w) next

  -- The purge of a version that has no path to the current one.
  unfoldable pub purge : Step R
  unfolding atomic update_version drop_history_user_tables
  purge =
      atomic λ s. some (update_version (pos current_schema_version) (drop_history_user_tables s))

  -- One turn of the loop of `run_migrations` at a version, and the turns after it.
  abbrev pub migration_turn : ℕ → Option (List Alter) → Step R → Step R
  migration_turn version none later = purge
  migration_turn version (some statements) later =
      atomic (migrate statements (pos (version + 1))) ⨟ later

  -- `while version < CURRENT_SCHEMA_VERSION`, by the number of versions that are left.
  unfoldable pub run_migrations : ℕ → Step R
  unfolding migration_from
  run_migrations zero w = (ok tt, w)
  run_migrations (suc left) w =
      let version = current_schema_version - suc left in
      migration_turn version (migration_from version migrations) (run_migrations left) w

  abbrev pub exists : Option (Table R) → Bool
  exists none = false
  exists (some t) = true

  -- What follows the count of legacy tables when no version is recorded.
  unfoldable pub mark_new : Step R
  unfolding drop_history_user_tables
  mark_new (s, faults) =
      if exists s.history || s.has_info || exists s.aggregated
      then atomic
          (λ s.
            some
              (record (drop_history_user_tables s) { version = some (pos current_schema_version) }))
          (s, faults)
      else atomic (λ s. some (record s { version = some (pos current_schema_version) })) (s, faults)

  -- `match row`; the first statement without a version counts the legacy tables.
  unfoldable pub ensure_from : Option ℤ → Step R
  ensure_from none = atomic (λ s. some s) ⨟ mark_new
  ensure_from (some found) = λ w.
      if leb_ℤ (pos current_schema_version) found && leb_ℤ found (pos current_schema_version)
      then (ok tt, w)
      else if ltb_ℤ (pos 0) found && ltb_ℤ found (pos current_schema_version)
      then run_migrations (current_schema_version - pos_part found) w
      else purge w

  -- CREATE TABLE IF NOT EXISTS schema_version, the SELECT, and the `match`.
  unfoldable pub ensure_schema_version : Step R
  ensure_schema_version =
      atomic (λ s. some s) ⨟ atomic (λ s. some s) ⨟ λ w. ensure_from w.0.version w

  abbrev pub or_empty : Option (Table R) → Option (Table R)
  or_empty (some t) = some t
  or_empty none =
      some
        (record { columns = "cpu_data" ∷ "ram_data" ∷ "gpu_data" ∷ "smart_data" ∷ []; rows = [] })

  -- `init`: the tables are created where they are missing; the second and fifth statement are the
  -- indexes.
  unfoldable pub init : Step R
  init =
      ensure_schema_version
      ⨟ atomic (λ s. some (record s { history = or_empty s.history }))
      ⨟ atomic (λ s. some s)
      ⨟ atomic (λ s. some (record s { has_info = true }))
      ⨟ atomic (λ s. some (record s { aggregated = or_empty s.aggregated }))
      ⨟ atomic (λ s. some s)
