-- ===== src/Prelude/Entries.antt =====
-- A `HashMap` with texts as its keys, as a list of entries; the order of the entries is one of
-- those in which the map may give them.
use homeserver_rust.Prelude.Tests.{◌=s=◌, if◌then◌else◌}
use Prim.Native.String.{String}
use mathlib.Core.Path.{◌≡◌, refl}
use mathlib.Core.Bool.{Bool, true, false, ◌||◌}
use mathlib.Core.Option.{Option, none, some}
use mathlib.Core.List.{List, [], ◌∷◌, map}
use native.Mathlib.Omega.{arith}
use text.Mathlib.TextEquality.{eq_iff}

abbrev pub contains_text : List String → String → Bool
contains_text [] x = false
contains_text (y ∷ ys) x = (y =s= x) || contains_text ys x

pub =s=-eq : (x y : String) → (x =s= y) ≡ true → x ≡ y
=s=-eq x y h = ground (arith, eq_iff x y, h)

pub =s=-refl : (x : String) → (x =s= x) ≡ true
=s=-refl x = ground (arith, eq_iff x x)

module _ {A : Type 0} where
  abbrev pub keys : List (String × A) → List String
  keys entries = map (λ e. e.0) entries

  abbrev pub values : List (String × A) → List A
  values entries = map (λ e. e.1) entries

  unfoldable pub lookup : List (String × A) → String → Option A
  lookup [] k = none
  lookup ((l, a) ∷ rest) k = let found = lookup rest k in if l =s= k then some a else found

  -- `HashMap::insert`
  unfoldable pub insert_entry : String → A → List (String × A) → List (String × A)
  insert_entry k a [] = (k, a) ∷ []
  insert_entry k a ((l, b) ∷ rest) =
      let after = insert_entry k a rest in if l =s= k then (k, a) ∷ rest else (l, b) ∷ after

  -- `HashMap::remove`
  unfoldable pub remove_entry : String → List (String × A) → List (String × A)
  remove_entry k [] = []
  remove_entry k ((l, b) ∷ rest) =
      let after = remove_entry k rest in if l =s= k then after else (l, b) ∷ after

  pub lookup-insert_same :
      (k : String) (a : A) (m : List (String × A)) → lookup (insert_entry k a m) k ≡ some a
  unfolding lookup insert_entry
  lookup-insert_same k a [] = ground (arith, eq_iff k k)
  lookup-insert_same k a ((l, b) ∷ rest) = ground (arith, eq_iff k k, lookup-insert_same k a rest)

  pub lookup-insert_other :
      (k j : String) (a : A) (m : List (String × A))
      → (k =s= j) ≡ false
      → lookup (insert_entry k a m) j ≡ lookup m j
  unfolding lookup insert_entry
  lookup-insert_other k j a [] h = ground (arith, h)
  lookup-insert_other k j a ((l, b) ∷ rest) h =
      ground (arith, eq_iff l k, eq_iff k j, eq_iff l j, h, lookup-insert_other k j a rest h)

  pub lookup-remove_same : (k : String) (m : List (String × A)) → lookup (remove_entry k m) k ≡ none
  unfolding lookup remove_entry
  lookup-remove_same k [] = refl
  lookup-remove_same k ((l, b) ∷ rest) = ground (arith, lookup-remove_same k rest)

  pub lookup-remove_other :
      (k j : String) (m : List (String × A))
      → (k =s= j) ≡ false
      → lookup (remove_entry k m) j ≡ lookup m j
  unfolding lookup remove_entry
  lookup-remove_other k j [] h = refl
  lookup-remove_other k j ((l, b) ∷ rest) h =
      ground (arith, eq_iff l k, eq_iff k j, eq_iff l j, h, lookup-remove_other k j rest h)
