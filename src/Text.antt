-- ===== src/Text.antt =====
-- The functions of Rust's `str` that the program calls, character by character.
pub mod Search
pub mod Decimal
use Prim.Native.Char.{Char, code}
use Prim.Native.String.{[], ◌∷◌}
use homeserver_rust.Prelude.{
  ℕ, ◌+◌, Bool, true, false, ◌&&◌, ◌||◌, List, String, leb, ◌==◌, if◌then◌else◌,
}

-- `char::is_whitespace`: the characters with the property White_Space.
unfoldable pub is_whitespace : Char → Bool
is_whitespace ch =
    let c = code ch in
    (leb 0x9 c && leb c 0xd)
    || c == 0x20
    || c == 0x85
    || c == 0xa0
    || c == 0x1680
    || (leb 0x2000 c && leb c 0x200a)
    || c == 0x2028
    || c == 0x2029
    || c == 0x202f
    || c == 0x205f
    || c == 0x3000

-- A word of `split_whitespace` is never empty.
abbrev pub push_word : String → List String → List String
push_word [] ws = ws
push_word (c ∷ w) ws = List.◌∷◌ (c ∷ w) ws

-- The word that a text begins with, and the words after it.
unfoldable pub words : String → String × List String
unfolding is_whitespace
words [] = ([], List.[])
words (c ∷ s) =
    let (w, ws) = words s in if is_whitespace c then ([], push_word w ws) else (c ∷ w, ws)

unfoldable pub split_whitespace : String → List String
unfolding words
split_whitespace s = let (w, ws) = words s in push_word w ws

unfoldable pub trim_start : String → String
unfolding is_whitespace
trim_start [] = []
trim_start (c ∷ s) = let rest = trim_start s in if is_whitespace c then rest else c ∷ s

unfoldable pub trim_end : String → String
unfolding is_whitespace
trim_end [] = []
trim_end (c ∷ s) = elim (trim_end s) [
  | [] ↦ if is_whitespace c then [] else c ∷ []
  | d ∷ r ↦ c ∷ d ∷ r
]

unfoldable pub trim : String → String
unfolding trim_start trim_end
trim s = trim_end (trim_start s)

unfoldable pub append : String → String → String
append [] t = t
append (c ∷ s) t = c ∷ append s t

-- `parts.join(" ")`
unfoldable pub join_space : List String → String
unfolding append
join_space List.[] = []
join_space (List.◌∷◌ w List.[]) = w
join_space (List.◌∷◌ w (List.◌∷◌ v ws)) = append w (append " " (join_space (List.◌∷◌ v ws)))

-- `char::to_ascii_lowercase`, as a code.
abbrev pub ascii_lower : ℕ → ℕ
ascii_lower c = if leb 0x41 c && leb c 0x5a then c + 0x20 else c

unfoldable pub eq_ignore_ascii_case : String → String → Bool
eq_ignore_ascii_case [] [] = true
eq_ignore_ascii_case [] (d ∷ t) = false
eq_ignore_ascii_case (c ∷ s) [] = false
eq_ignore_ascii_case (c ∷ s) (d ∷ t) =
    ascii_lower (code c) == ascii_lower (code d) && eq_ignore_ascii_case s t
