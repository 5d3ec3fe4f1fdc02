-- ===== src/Host/Disk/Splits.antt =====
-- Texts of small letters and digits, which src/sysinfo_repo/linux/disk.rs trims and splits.
use mathlib.Core.Option.{none-ne-some}
use Prim.Native.Char.{Char, code}
use Prim.Native.String.{[], ◌∷◌}
use homeserver_rust.Prelude.{
  ◌≡◌, refl, sym, ap, Bool, true, false, ◌&&◌, ◌||◌, Option, none, some, String, ◌==◌, leb, arith,
  Bool-cases, inl, inr, if◌then◌else◌,
}
use homeserver_rust.Text.{is_whitespace, trim_start, trim_end, trim, append}
use homeserver_rust.Text.Search.{
  is_ascii_digit, all_digits, split_once, rsplit_once, split_at_digit, push_left,
}
use homeserver_rust.Host.Disk.{is_number}

abbrev pub is_lower : Char → Bool
is_lower c = leb 0x61 (code c) && leb (code c) 0x7a

abbrev pub all_lower : String → Bool
all_lower [] = true
all_lower (c ∷ s) = is_lower c && all_lower s

abbrev pub IsNumber : String → Type 0
IsNumber s = is_number s ≡ true

-- Names have small letters and digits only, which trimming keeps.
abbrev pub plain : String → Bool
plain [] = true
plain (c ∷ s) = (is_lower c || is_ascii_digit c) && plain s

pub plain-append : (a b : String) → plain a ≡ true → plain b ≡ true → plain (append a b) ≡ true
unfolding append
plain-append [] b ha hb = hb
plain-append (c ∷ a) b ha hb = ground (arith, ha, plain-append a b (ground (arith, ha)) hb)

pub plain-digits : (s : String) → all_digits s ≡ true → plain s ≡ true
plain-digits [] h = refl
plain-digits (c ∷ s) h = ground (arith, h, plain-digits s)

pub plain-lower : (s : String) → all_lower s ≡ true → plain s ≡ true
plain-lower [] h = refl
plain-lower (c ∷ s) h = ground (arith, h, plain-lower s)

pub is_whitespace-plain :
    (c : Char) → is_lower c || is_ascii_digit c ≡ true → is_whitespace c ≡ false
unfolding is_whitespace
is_whitespace-plain c h = ground (arith, h)

pub trim_end-plain : (s : String) → plain s ≡ true → trim_end s ≡ s
unfolding trim_end
trim_end-plain [] h = refl
trim_end-plain (c ∷ s) h = rw (trim_end-plain s (ground (arith, h))) (ends s)
  where
    ends :
        (r : String)
        → (elim r [ [] ↦ if is_whitespace c then [] else c ∷ [] | d ∷ t ↦ c ∷ d ∷ t ]) ≡ c ∷ r
    ends [] = rw (is_whitespace-plain c (ground (arith, h))) refl
    ends (d ∷ t) = refl

pub trim-plain : (s : String) → plain s ≡ true → trim s ≡ s
unfolding trim trim_start
trim-plain [] h = refl
trim-plain (c ∷ s) h = rw (is_whitespace-plain c (ground (arith, h))) (trim_end-plain (c ∷ s) h)

-- A separator that a part does not have.
pub split_once-number : (s : String) → all_digits s ≡ true → split_once 0x70 s ≡ none
unfolding split_once
split_once-number [] h = refl
split_once-number (c ∷ s) h = rw (split_once-number s (ground (arith, h))) (ground (arith, h))

pub push_left-none : (e : Char) (o : Option (String × String)) → push_left e o ≡ none → o ≡ none
push_left-none e none h = refl
push_left-none e (some ab) h = absurd (none-ne-some _ (sym h))

pub split_once-append :
    (a : String) (c : Char) (b : String)
    → split_once (code c) a ≡ none
    → split_once (code c) (append a (c ∷ b)) ≡ some (a, b)
unfolding split_once append
split_once-append [] c b h = ground arith
split_once-append (e ∷ a) c b h = elim (Bool-cases (code e == code c)) [
  | inl here ↦ absurd (none-ne-some _ (sym (rw here at h)))
  | inr later ↦
      rw (later, split_once-append a c b (push_left-none e (split_once (code c) a) (rw later at h)))
        refl
]

pub rsplit_once-number : (s : String) → all_digits s ≡ true → rsplit_once 0x70 s ≡ none
unfolding rsplit_once
rsplit_once-number [] h = refl
rsplit_once-number (c ∷ s) h = rw (rsplit_once-number s (ground (arith, h))) (ground (arith, h))

pub rsplit_once-append :
    (a : String) (c : Char) (b : String)
    → rsplit_once (code c) b ≡ none
    → rsplit_once (code c) (append a (c ∷ b)) ≡ some (a, b)
unfolding rsplit_once append
rsplit_once-append [] c b h = rw h (ground arith)
rsplit_once-append (e ∷ a) c b h = rw (rsplit_once-append a c b h) refl

pub rsplit_once-none :
    (a b : String)
    → all_digits a ≡ true
    → rsplit_once 0x70 b ≡ none
    → rsplit_once 0x70 (append a b) ≡ none
unfolding rsplit_once append
rsplit_once-none [] b ha hb = hb
rsplit_once-none (c ∷ a) b ha hb =
    rw (rsplit_once-none a b (ground (arith, ha)) hb) (ground (arith, ha))

pub split_at_digit-lower : (s : String) → all_lower s ≡ true → split_at_digit s ≡ none
unfolding split_at_digit
split_at_digit-lower [] h = refl
split_at_digit-lower (c ∷ s) h = rw (split_at_digit-lower s (ground (arith, h))) (ground (arith, h))

pub split_at_digit-append :
    (a b : String) → all_lower a ≡ true → IsNumber b → split_at_digit (append a b) ≡ some (a, b)
unfolding split_at_digit append
split_at_digit-append [] [] ha hb = ground (arith, hb)
split_at_digit-append [] (c ∷ b) ha hb = ground (arith, hb)
split_at_digit-append (e ∷ a) b ha hb =
    rw (split_at_digit-append a b (ground (arith, ha)) hb) (ground (arith, ha))

pub append-append : (a b c : String) → append (append a b) c ≡ append a (append b c)
unfolding append
append-append [] b c = refl
append-append (x ∷ a) b c = ap (◌∷◌ x) (append-append a b c)
