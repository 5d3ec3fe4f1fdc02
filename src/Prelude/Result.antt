-- ===== src/Prelude/Result.antt =====
-- Fallible code: `anyhow::Result`, with the errors of the component at hand.
use mathlib.Core.Path.{◌≡◌, refl, subst}
use mathlib.Core.Bool.{Bool, true, false}
use mathlib.Core.Logic.{◌↔◌}

pub data Result {ℓ} (E A : Type ℓ) : Type ℓ where
  ok : A → Result E A
  err : E → Result E A

infixl 5 ◌>>=◌ ◌>>◌
abbrev pub ◌>>=◌ {ℓ} : {E A B : Type ℓ} → Result E A → (A → Result E B) → Result E B
ok a >>= k = k a
err e >>= k = err e

abbrev pub ◌>>◌ {ℓ} : {E B : Type ℓ} → Result E (Unit {ℓ}) → Result E B → Result E B
m >> k = m >>= λ _. k

-- `anyhow::ensure!`
abbrev pub ensure {ℓ} : {E : Type ℓ} → Bool → E → Result E (Unit {ℓ})
ensure true e = ok tt
ensure false e = err e

abbrev pub IsOk {ℓ} : {E A : Type ℓ} → Result E A → Type 0
IsOk (ok a) = Unit
IsOk (err e) = ⊥

-- A chain succeeds exactly when each of its parts does.
pub >>-IsOk {ℓ} : {E : Type ℓ} (m k : Result E (Unit {ℓ})) → IsOk (m >> k) ↔ (IsOk m × IsOk k)
>>-IsOk (ok u) k = (λ h. (tt, h), λ h. h.1)
>>-IsOk (err e) k = (λ h. absurd h, λ h. h.0)

pub ensure-IsOk {ℓ} : {E : Type ℓ} (b : Bool) (e : E) → IsOk (ensure b e) ↔ (b ≡ true)
ensure-IsOk true e = (λ _. refl, λ _. tt)
ensure-IsOk false e = (λ h. absurd h, λ h. cc)

module _ {E B : Type 0} (P : B → Type 0) where
  -- The value has the property, where there is one.
  abbrev pub Yields : Result E B → Type 0
  Yields (ok b) = P b
  Yields (err e) = Unit

  -- What a chain ends with has the property if it follows from a success of the first part.
  pub Yields-bind :
      {A : Type 0} (m : Result E A) (k : A → Result E B)
      → ((a : A) → m ≡ ok a → Yields (k a))
      → Yields (m >>= k)
  Yields-bind (ok a) k h = h a refl
  Yields-bind (err e) k h = tt

  pub Yields-ok : (r : Result E B) (b : B) → r ≡ ok b → Yields r → P b
  Yields-ok r b e h = subst Yields e h
