-- ===== src/Prelude/Options.antt =====
-- Chains of `?` and `and_then` on `Option`.
use mathlib.Core.Path.{◌≡◌, subst}
use mathlib.Core.Option.{Option, none, some}

infixl 5 ◌>>=◌
abbrev pub ◌>>=◌ {ℓ κ} : {A : Type ℓ} {B : Type κ} → Option A → (A → Option B) → Option B
none >>= k = none
some a >>= k = k a

module _ {B : Type 0} (P : B → Type 0) where
  -- The value has the property, where there is one.
  abbrev pub Holds : Option B → Type 0
  Holds none = Unit
  Holds (some b) = P b

  -- What a chain ends with has the property if its last step gives no other value.
  pub Holds-bind :
      {A : Type 0} (o : Option A) (k : A → Option B) → ((a : A) → Holds (k a)) → Holds (o >>= k)
  Holds-bind none k h = tt
  Holds-bind (some a) k h = h a

  pub Holds-some : (o : Option B) (b : B) → o ≡ some b → Holds o → P b
  Holds-some o b e h = subst Holds e h
