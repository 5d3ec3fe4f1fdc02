-- ===== src/Tests/Upgrade.antt =====
-- Starts of the program on databases of several versions.
use homeserver_rust.Prelude.{ℕ, ◌≡◌, refl, inl, true, false, List, [], ◌∷◌, none, some}
use homeserver_rust.Prelude.Int.{pos}
use homeserver_rust.Prelude.Result.{ok}
use homeserver_rust.History.Schema.{
  migration_from, add_column, apply_alter, update_version, migrate, drop_history_user_tables,
  atomic, ◌⨟◌, purge, run_migrations, mark_new, ensure_from, ensure_schema_version, init,
}
use homeserver_rust.History.Schema.Keeps.{Upgraded, database, init-Upgraded}

program : Unit {0}
unfolding migration_from add_column apply_alter update_version migrate drop_history_user_tables
    atomic ◌⨟◌ purge run_migrations mark_new ensure_from ensure_schema_version init
program = tt

abbrev raw : List ℕ
raw = 1 ∷ 2 ∷ []

abbrev agg : List ℕ
agg = 3 ∷ []

upgraded : init (database raw agg 2, []) ≡ (ok tt, (database raw agg 5, []))
unfolding program
upgraded = refl

-- The second migration fails.
halfway : (init (database raw agg 2, false ∷ false ∷ false ∷ true ∷ [])).1.0 ≡ database raw agg 3
unfolding program
halfway = refl

fresh :
    (init {R = ℕ}
      (record { version = none; history = none; aggregated = none; has_info = false }, [])).1.0
    ≡ database [] [] 5
unfolding program
fresh = refl

-- A version to come is purged.
downgraded :
    (init (record (database raw agg 5) { version = some (pos 6) }, [])).1.0 ≡ database [] [] 5
unfolding program
downgraded = refl

init-Upgraded_example :
    Upgraded raw agg 2 (init (database raw agg 2, false ∷ false ∷ false ∷ true ∷ []))
init-Upgraded_example = init-Upgraded raw agg 2 (inl refl) (false ∷ false ∷ false ∷ true ∷ [])
