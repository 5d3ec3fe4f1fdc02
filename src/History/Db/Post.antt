-- ===== src/History/Db/Post.antt =====
-- What holds of the database after statements, whether they succeed or fail.
use homeserver_rust.Prelude.{◌≡◌, refl, List, [], ◌∷◌, Bool, true, false, Option, none, some}
use homeserver_rust.Prelude.Result.{Result, ok, err}
use homeserver_rust.History.Db.Statements.{
  Db, DbError, World, Exec, pure, raise, or_raise, run_statement, statement, continue, ◌>>=◌,
}

module _ {F A : Type 0} where
  -- `E` holds after an error, and `Q` of the result and the database after a success.
  abbrev pub Post : (Db F → Type 0) → (A → Db F → Type 0) → Result DbError A × World F → Type 0
  Post E Q (ok a, w) = Q a w.db
  Post E Q (err e, w) = E w.db

module _ {F A : Type 0} (E : Db F → Type 0) (Q : A → Db F → Type 0) where
  Post-run :
      (s : Db F → A × Db F) (db : Db F) (faults : List Bool)
      → E db
      → Q (s db).0 (s db).1
      → Post E Q (run_statement s db faults)
  Post-run s db [] e q = q
  Post-run s db (false ∷ more) e q = q
  Post-run s db (true ∷ more) e q = e

  pub Post-statement :
      (s : Db F → A × Db F) (w : World F)
      → E w.db
      → Q (s w.db).0 (s w.db).1
      → Post E Q (statement s w)
  unfolding statement
  Post-statement s w e q = Post-run s w.db w.faults e q

  pub Post-pure : (a : A) (w : World F) → Q a w.db → Post E Q (pure a w)
  unfolding pure
  Post-pure a w q = q

  pub Post-raise : (x : DbError) (w : World F) → E w.db → Post E Q (raise x w)
  unfolding raise
  Post-raise x w e = e

  pub Post-or_raise :
      (x : DbError) (o : Option A) (w : World F)
      → E w.db
      → ((a : A) → o ≡ some a → Q a w.db)
      → Post E Q (or_raise x o w)
  unfolding or_raise
  Post-or_raise x none w e q = e
  Post-or_raise x (some a) w e q = q a refl

module _ {F A B : Type 0} (E : Db F → Type 0) (P : A → Db F → Type 0) (Q : B → Db F → Type 0)
    (k : A → Exec F B) (rest : (a : A) (w : World F) → P a w.db → Post E Q (k a w)) where
  Post-continue : (r : Result DbError A × World F) → Post E P r → Post E Q (continue r.0 k r.1)
  Post-continue (ok a, w) p = rest a w p
  Post-continue (err e, w) p = p

  pub Post-bind : (m : Exec F A) (w : World F) → Post E P (m w) → Post E Q ((m >>= k) w)
  unfolding ◌>>=◌
  Post-bind m w p = Post-continue (m w) p

module _ {F A : Type 0} (E : Db F → Type 0) (Q : A → Db F → Type 0) where
  -- A condition that holds either way holds of the database that is left.
  pub Post-weaken :
      (P : Db F → Type 0)
      → ((db : Db F) → E db → P db)
      → ((a : A) (db : Db F) → Q a db → P db)
      → (r : Result DbError A × World F) → Post E Q r
      → P r.1.db
  Post-weaken P f g (ok a, w) p = g a w.db p
  Post-weaken P f g (err e, w) p = f w.db p

-- How a chain came to succeed: its first part gave a value, from which the rest went on.
pub record Chain {F A B : Type 0} (m : Exec F A) (k : A → Exec F B) (w : World F) (b : B)
    : Type 0 where
  pub value : A
  pub after : World F
  pub first : m w ≡ (ok value, after)
  pub second : (k value after).0 ≡ ok b

module _ {F A B : Type 0} (m : Exec F A) (k : A → Exec F B) (w : World F) (b : B) where
  chain : (r : Result DbError A × World F) → m w ≡ r → (continue r.0 k r.1).0 ≡ ok b → Chain m k w b
  chain (ok a, w') first h = record { value = a; after = w'; first = first; second = h }
  chain (err e, w') first h = cc

  pub bind-Chain : ((m >>= k) w).0 ≡ ok b → Chain m k w b
  unfolding ◌>>=◌
  bind-Chain h = chain (m w) refl h
