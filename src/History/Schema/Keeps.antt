-- ===== src/History/Schema/Keeps.antt =====
-- An upgrade of the schema of src/history_repo/schema.rs keeps every row.
use homeserver_rust.Prelude.{
  ℕ, ◌≤◌, ◌≡◌, refl, Bool, true, false, List, [], ◌∷◌, String, Option, some, arith, ◌==◌,
  if◌then◌else◌, ◌⊎◌, inl, inr,
}
use homeserver_rust.Prelude.Int.{pos}
use homeserver_rust.Prelude.Result.{Result, ok, err}
use homeserver_rust.History.Schema.{
  Store, Step, migration_from, apply_alter, add_column, update_version, migrate, atomic, follow,
  ◌⨟◌, run_migrations, ensure_from, ensure_schema_version, init,
}

-- The columns that a version has beyond those of version 2.
abbrev pub columns_of : ℕ → List String
columns_of n =
    if n == 3
    then "cpu_data" ∷ "ram_data" ∷ []
    else if n == 4
    then "cpu_data" ∷ "ram_data" ∷ "gpu_data" ∷ []
    else if n == 5
    then "cpu_data" ∷ "ram_data" ∷ "gpu_data" ∷ "smart_data" ∷ []
    else []

-- The versions that a migration starts from or ends at.
abbrev pub Supported : ℕ → Type 0
Supported v = (v ≡ 2) ⊎ (v ≡ 3) ⊎ (v ≡ 4) ⊎ (v ≡ 5)

module _ {R : Type 0} (raw agg : List R) where
  -- A database of a version, with these rows.
  abbrev pub database : ℕ → Store R
  database v = record {
    version = some (pos v);
    history = some (record { columns = columns_of v; rows = raw });
    aggregated = some (record { columns = columns_of v; rows = agg });
    has_info = true;
  }

  -- The rows are in a database of this version or a later one, and of the current one after a
  -- success.
  abbrev pub Upgraded : ℕ → Result (Unit {0}) (Unit {0}) × (Store R × List Bool) → Type 0
  Upgraded v (ok u, (s, faults)) = s ≡ database 5
  Upgraded v (err e, (s, faults)) = (v' : ℕ) × (v ≤ v') × (v' ≤ 5) × (s ≡ database v')

  -- After an error too the version only rises.
  Upgraded-lower : (v v' : ℕ) → v ≤ v' → (r : _) → Upgraded v' r → Upgraded v r
  Upgraded-lower v v' h (ok u, w) up = up
  Upgraded-lower v v' h (err e, w) (n, below, above, same) =
      (n, omega (arith, h, below), above, same)

  atomic-Upgraded :
      (v v' : ℕ) (change : Store R → Option (Store R)) (next : Step R)
      → v ≤ v'
      → v ≤ 5
      → change (database v) ≡ some (database v')
      → ((faults : List Bool) → Upgraded v' (next (database v', faults)))
      → (faults : List Bool) → Upgraded v ((atomic change ⨟ next) (database v, faults))
  unfolding atomic ◌⨟◌
  atomic-Upgraded v v' change next h five same later [] =
      rw same (Upgraded-lower v v' h _ (later []))
  atomic-Upgraded v v' change next h five same later (false ∷ more) =
      rw same (Upgraded-lower v v' h _ (later more))
  atomic-Upgraded v v' change next h five same later (true ∷ more) = (v, omega arith, five, refl)

  then-Upgraded :
      (v : ℕ) (next : Step R)
      → v ≤ 5
      → ((faults : List Bool) → Upgraded 5 (next (database 5, faults)))
      → (r : Result (Unit {0}) (Unit {0}) × (Store R × List Bool)) → Upgraded v r
      → Upgraded v (follow r next)
  then-Upgraded v next five later (ok u, (s, faults)) same =
      rw same (Upgraded-lower v 5 five _ (later faults))
  then-Upgraded v next five later (err e, w) up = up

  -- A statement that finds nothing to do.
  idle-Upgraded :
      (change : Store R → Option (Store R))
      → change (database 5) ≡ some (database 5)
      → (faults : List Bool) → Upgraded 5 (atomic change (database 5, faults))
  unfolding atomic
  idle-Upgraded change same [] = rw same refl
  idle-Upgraded change same (false ∷ more) = rw same refl
  idle-Upgraded change same (true ∷ more) = (5, omega arith, omega arith, refl)

  migrates_4 : (faults : List Bool) → Upgraded 4 (run_migrations 1 (database 4, faults))
  unfolding run_migrations migration_from migrate apply_alter add_column update_version
  migrates_4 = atomic-Upgraded 4 5 _ (run_migrations 0) (omega arith) (omega arith) refl (λ _. refl)

  migrates_3 : (faults : List Bool) → Upgraded 3 (run_migrations 2 (database 3, faults))
  unfolding run_migrations migration_from migrate apply_alter add_column update_version
  migrates_3 = atomic-Upgraded 3 4 _ (run_migrations 1) (omega arith) (omega arith) refl migrates_4

  migrates_2 : (faults : List Bool) → Upgraded 2 (run_migrations 3 (database 2, faults))
  unfolding run_migrations migration_from migrate apply_alter add_column update_version
  migrates_2 = atomic-Upgraded 2 3 _ (run_migrations 2) (omega arith) (omega arith) refl migrates_3

  ensure_from-Upgraded :
      (v : ℕ)
      → Supported v
      → (faults : List Bool) → Upgraded v (ensure_from (some (pos v)) (database v, faults))
  unfolding ensure_from
  ensure_from-Upgraded v (inl h) faults = rw h (migrates_2 faults)
  ensure_from-Upgraded v (inr (inl h)) faults = rw h (migrates_3 faults)
  ensure_from-Upgraded v (inr (inr (inl h))) faults = rw h (migrates_4 faults)
  ensure_from-Upgraded v (inr (inr (inr h))) faults = rw h refl

  ensure-Upgraded :
      (v : ℕ)
      → Supported v
      → v ≤ 5
      → (faults : List Bool) → Upgraded v (ensure_schema_version (database v, faults))
  unfolding ensure_schema_version
  ensure-Upgraded v h five =
      atomic-Upgraded v v _ _ (omega arith) five refl
        (atomic-Upgraded v v _ _ (omega arith) five refl (ensure_from-Upgraded v h))

  then-idle :
      (change : Store R → Option (Store R)) (next : Step R)
      → change (database 5) ≡ some (database 5)
      → ((faults : List Bool) → Upgraded 5 (next (database 5, faults)))
      → (faults : List Bool) → Upgraded 5 ((atomic change ⨟ next) (database 5, faults))
  then-idle change next same later =
      atomic-Upgraded 5 5 change next (omega arith) (omega arith) same later

  -- Starting the program on a database of version 2, 3, 4 or 5 keeps every raw and aggregated row,
  -- whichever statements fail: it leaves the database at version 5 if it succeeds, and else at a
  -- version from the old one on, with the columns of that version.
  pub init-Upgraded :
      (v : ℕ) → Supported v → (faults : List Bool) → Upgraded v (init (database v, faults))
  unfolding init ◌⨟◌
  init-Upgraded v h faults =
      then-Upgraded v _ (at_most v h)
        (then-idle _ _ refl
          (then-idle _ _ refl (then-idle _ _ refl (then-idle _ _ refl (idle-Upgraded _ refl)))))
        (ensure_schema_version (database v, faults)) (ensure-Upgraded v h (at_most v h) faults)
    where
      at_most : (v : ℕ) → Supported v → v ≤ 5
      at_most v h = ground arith
