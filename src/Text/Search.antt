-- ===== src/Text/Search.antt =====
-- Prefixes, splits and lines of a text. An offset of the source is here a pair of texts.
use Prim.Native.Char.{Char, code}
use Prim.Native.String.{[], ◌∷◌}
use homeserver_rust.Prelude.{
  ℕ, Bool, true, false, ◌&&◌, List, Option, none, some, String, ◌==◌, leb, if◌then◌else◌,
}

abbrev pub is_ascii_digit : Char → Bool
is_ascii_digit c = leb 0x30 (code c) && leb (code c) 0x39

abbrev pub is_empty_text : String → Bool
is_empty_text [] = true
is_empty_text (c ∷ s) = false

-- `s.chars().all(|c| c.is_ascii_digit())`
abbrev pub all_digits : String → Bool
all_digits [] = true
all_digits (c ∷ s) = is_ascii_digit c && all_digits s

-- `s.strip_prefix(prefix)`
unfoldable pub strip_prefix : String → String → Option String
strip_prefix [] s = some s
strip_prefix (p ∷ prefix) [] = none
strip_prefix (p ∷ prefix) (c ∷ s) =
    let rest = strip_prefix prefix s in if code p == code c then rest else none

unfoldable pub starts_with : String → String → Bool
unfolding strip_prefix
starts_with prefix s = elim (strip_prefix prefix s) [ none ↦ false | some rest ↦ true ]

abbrev pub push_left : Char → Option (String × String) → Option (String × String)
push_left c none = none
push_left c (some (a, b)) = some (c ∷ a, b)

-- What stands before and behind the first character with this code: `split_once`, `find`.
unfoldable pub split_once : ℕ → String → Option (String × String)
split_once d [] = none
split_once d (c ∷ s) =
    let rest = split_once d s in if code c == d then some ([], s) else push_left c rest

-- The same at the last such character: `rfind`.
unfoldable pub rsplit_once : ℕ → String → Option (String × String)
rsplit_once d [] = none
rsplit_once d (c ∷ s) = elim (rsplit_once d s) [
  | some (a, b) ↦ some (c ∷ a, b)
  | none ↦ if code c == d then some ([], s) else none
]

-- `s.find(|c| c.is_ascii_digit())` and `split_at`.
unfoldable pub split_at_digit : String → Option (String × String)
split_at_digit [] = none
split_at_digit (c ∷ s) =
    let rest = split_at_digit s in if is_ascii_digit c then some ([], c ∷ s) else push_left c rest

-- What follows `": "`.
unfoldable pub after_colon_space : String → Option String
after_colon_space [] = none
after_colon_space (c ∷ []) = none
after_colon_space (c ∷ d ∷ s) =
    let rest = after_colon_space (d ∷ s) in
    if code c == 0x3a && code d == 0x20 then some s else rest

-- `s.trim_matches('"')`
unfoldable pub trim_quotes_start : String → String
trim_quotes_start [] = []
trim_quotes_start (c ∷ s) = let rest = trim_quotes_start s in if code c == 0x22 then rest else c ∷ s

unfoldable pub trim_quotes_end : String → String
trim_quotes_end [] = []
trim_quotes_end (c ∷ s) = elim (trim_quotes_end s) [
  | [] ↦ if code c == 0x22 then [] else c ∷ []
  | d ∷ r ↦ c ∷ d ∷ r
]

unfoldable pub trim_quotes : String → String
unfolding trim_quotes_start trim_quotes_end
trim_quotes s = trim_quotes_end (trim_quotes_start s)

abbrev pub push_line : Char → List String → List String
push_line c List.[] = List.◌∷◌ (c ∷ []) List.[]
push_line c (List.◌∷◌ l ls) = List.◌∷◌ (c ∷ l) ls

abbrev pub is_newline_next : String → Bool
is_newline_next [] = false
is_newline_next (c ∷ s) = code c == 0xa

-- `s.lines()`: a line ends at a line feed, with a carriage return before it or not.
unfoldable pub lines : String → List String
lines [] = List.[]
lines (c ∷ s) =
    let rest = lines s in
    if code c == 0xa
    then List.◌∷◌ [] rest
    else if code c == 0xd && is_newline_next s
    then rest
    else push_line c rest

-- `trim_start_matches("/dev/")`
unfoldable pub trim_dev : String → String
trim_dev (a ∷ b ∷ c ∷ d ∷ e ∷ s) =
    let rest = trim_dev s in
    if code a == 0x2f && code b == 0x64 && code c == 0x65 && code d == 0x76 && code e == 0x2f
    then rest
    else a ∷ b ∷ c ∷ d ∷ e ∷ s
trim_dev s = s
