-- ===== src/History/Db/Still.antt =====
-- Actions that read or serialize, and leave the database as it is.
use homeserver_rust.Prelude.{◌≡◌, refl, ◌∙◌, Option, none, some}
use homeserver_rust.Prelude.Result.{Result, ok, err}
use homeserver_rust.History.Db.Statements.{
  Db, DbError, World, Exec, pure, or_raise, continue, ◌>>=◌,
}
use homeserver_rust.History.Db.Post.{Post}

pub record Still {F A : Type 0} (m : Exec F A) : Type 0 where
  pub at : (w : World F) → (m w).1.db ≡ w.db

module _ {F A : Type 0} where
  pub Still-pure : (a : A) → Still {F = F} (pure a)
  unfolding pure
  Still-pure a = record { at = λ w. refl }

  pub Still-or_raise : (e : DbError) (o : Option A) → Still {F = F} (or_raise e o)
  unfolding or_raise
  Still-or_raise e none = record { at = λ w. refl }
  Still-or_raise e (some a) = record { at = λ w. refl }

  Post-result :
      (E : Db F → Type 0) (Q : A → Db F → Type 0) (db : Db F) (r : Result DbError A × World F)
      → r.1.db ≡ db
      → E db
      → ((a : A) → Q a db)
      → Post E Q r
  Post-result E Q db (ok a, w) h e q = rw h (q a)
  Post-result E Q db (err x, w) h e q = rw h e

  pub Post-Still :
      (E : Db F → Type 0) (Q : A → Db F → Type 0) (m : Exec F A) (w : World F)
      → Still m
      → E w.db
      → ((a : A) → Q a w.db)
      → Post E Q (m w)
  Post-Still E Q m w s e q = Post-result E Q w.db (m w) (s.at w) e q

module _ {F A B : Type 0} (k : A → Exec F B) (sk : (a : A) → Still (k a)) where
  Still-continue : (r : Result DbError A × World F) → (continue r.0 k r.1).1.db ≡ r.1.db
  Still-continue (ok a, w) = (sk a).at w
  Still-continue (err e, w) = refl

  pub Still-bind : (m : Exec F A) → Still m → Still (m >>= k)
  unfolding ◌>>=◌
  Still-bind m sm = record { at = λ w. Still-continue (m w) ∙ sm.at w }
