-- ===== src/Text/Decimal.antt =====
-- Rust's `parse` for integers: digits behind an optional sign, and an error beyond the type's bounds.
use Prim.Native.Char.{code}
use Prim.Native.String.{[], ◌∷◌}
use homeserver_rust.Prelude.{
  ℕ, ◌+◌, ◌-◌, ◌*◌, ◌^◌, ◌≤◌, ◌≡◌, Option, none, some, String, ◌==◌, leb, if◌then◌else◌, arith,
  Bool-cases, inl, inr,
}
use homeserver_rust.Prelude.Int.{ℤ, pos, sub_ℕ}
use homeserver_rust.Text.Search.{is_ascii_digit}

unfoldable pub digits_from : ℕ → ℕ → String → Option ℕ
digits_from bound n [] = some n
digits_from bound n (c ∷ s) =
    let m = n * 10 + (code c - 0x30) in
    let rest = digits_from bound m s in
    if is_ascii_digit c then (if leb m bound then rest else none) else none

-- At least one digit.
unfoldable pub digits : ℕ → String → Option ℕ
unfolding digits_from
digits bound [] = none
digits bound (c ∷ s) = digits_from bound 0 (c ∷ s)

unfoldable pub parse_unsigned : ℕ → String → Option ℕ
unfolding digits
parse_unsigned bound [] = none
parse_unsigned bound (c ∷ s) = if code c == 0x2b then digits bound s else digits bound (c ∷ s)

abbrev pub parse_u64 : String → Option ℕ
parse_u64 = parse_unsigned (2 ^ 64 - 1)

abbrev pub parse_u32 : String → Option ℕ
parse_u32 = parse_unsigned (2 ^ 32 - 1)

abbrev pub negated : Option ℕ → Option ℤ
negated none = none
negated (some n) = some (sub_ℕ 0 n)

abbrev pub as_pos : Option ℕ → Option ℤ
as_pos none = none
as_pos (some n) = some (pos n)

unfoldable pub parse_i64 : String → Option ℤ
unfolding digits parse_unsigned
parse_i64 [] = none
parse_i64 (c ∷ s) =
    if code c == 0x2d
    then negated (digits (2 ^ 63) s)
    else as_pos (parse_unsigned (2 ^ 63 - 1) (c ∷ s))

-- A number that is read is within the bound.
digits_from-le :
    (bound n : ℕ) (s : String) (m : ℕ) → n ≤ bound → digits_from bound n s ≡ some m → m ≤ bound
unfolding digits_from
digits_from-le bound n [] m few e = ground (arith, few, e)
digits_from-le bound n (c ∷ s) m few e =
    ground (arith, few, e, digits_from-le bound (n * 10 + (code c - 0x30)) s m)

digits-le : (bound : ℕ) (s : String) (m : ℕ) → digits bound s ≡ some m → m ≤ bound
unfolding digits
digits-le bound [] m e = ground (arith, e)
digits-le bound (c ∷ s) m e = digits_from-le bound 0 (c ∷ s) m (omega arith) e

pub parse_unsigned-le :
    (bound : ℕ) (s : String) (m : ℕ) → parse_unsigned bound s ≡ some m → m ≤ bound
unfolding parse_unsigned
parse_unsigned-le bound [] m e = ground (arith, e)
parse_unsigned-le bound (c ∷ s) m e = elim (Bool-cases (code c == 0x2b)) [
  | inl signed ↦ digits-le bound s m (rw signed at e)
  | inr plain ↦ digits-le bound (c ∷ s) m (rw plain at e)
]
