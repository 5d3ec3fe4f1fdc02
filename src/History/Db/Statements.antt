-- ===== src/History/Db/Statements.antt =====
-- Statements against the database. A statement that fails changes nothing, and a transaction that
-- does not commit leaves the database as it was.
use homeserver_rust.Prelude.{Bool, true, false, List, [], ◌∷◌, Option, none, some}
use homeserver_rust.Prelude.Result.{Result, ok, err}
use homeserver_rust.History.Blob.{Bytes}
use homeserver_rust.History.Db.Rows.{RawRow, AggRow}

pub record Db (F : Type 0) : Type 0 where
  pub raw : List (RawRow F)
  pub agg : List (AggRow F)
  pub info : Option Bytes

-- `out_of_fuel` is the model's own: a loop was given fewer rounds than it needs.
pub data DbError : Type 0 where
  sqlite serialization deserialization clock out_of_fuel : DbError

-- `faults` says of each statement to come whether the engine refuses it; past its end all succeed.
pub record World (F : Type 0) : Type 0 where
  pub db : Db F
  pub faults : List Bool

abbrev pub Exec : Type 0 → Type 0 → Type 0
Exec F A = World F → Result DbError A × World F

module _ {F A : Type 0} where
  unfoldable pub pure : A → Exec F A
  pure a w = (ok a, w)

  unfoldable pub raise : DbError → Exec F A
  raise e w = (err e, w)

  -- `.map_err(…)?` on a serializer's result
  unfoldable pub or_raise : DbError → Option A → Exec F A
  or_raise e none w = (err e, w)
  or_raise e (some a) w = (ok a, w)

  abbrev pub run_statement : (Db F → A × Db F) → Db F → List Bool → Result DbError A × World F
  run_statement s db [] = let (a, db') = s db in (ok a, record { db = db'; faults = [] })
  run_statement s db (false ∷ more) =
      let (a, db') = s db in (ok a, record { db = db'; faults = more })
  run_statement s db (true ∷ more) = (err sqlite, record { db = db; faults = more })

  unfoldable pub statement : (Db F → A × Db F) → Exec F A
  statement s w = run_statement s w.db w.faults

  abbrev pub finish : Db F → Result DbError A × World F → Result DbError A × World F
  finish before (ok a, w) = (ok a, w)
  finish before (err e, w) = (err e, record w { db = before })

module _ {F A B : Type 0} where
  abbrev pub continue : Result DbError A → (A → Exec F B) → Exec F B
  continue (ok a) k w = k a w
  continue (err e) k w = (err e, w)

  infixl 5 ◌>>=◌ ◌>>◌
  unfoldable pub ◌>>=◌ : Exec F A → (A → Exec F B) → Exec F B
  ◌>>=◌ m k w = let (r, w') = m w in continue r k w'

  abbrev pub ◌>>◌ : Exec F A → Exec F B → Exec F B
  m >> k = m >>= λ _. k

module _ {F : Type 0} where
  -- `pool.begin()`, and `tx.commit()`: statements that change no row
  unfoldable pub touch : Exec F (Unit {0})
  unfolding statement
  touch = statement (λ db. (tt, db))

  -- `begin`, the statements of the body, `commit`; an error rolls all of them back
  unfoldable pub transaction : Exec F (Unit {0}) → Exec F (Unit {0})
  unfolding touch ◌>>=◌ statement
  transaction body w = finish w.db ((touch >> body >> touch) w)
