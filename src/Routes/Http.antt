-- ===== src/Routes/Http.antt =====
-- src/routes/http.rs: the request for the history. A response is a constructor for each status and
-- message of the handler.
pub mod Bounded
use Prim.Native.Char.{Char, code}
use Prim.Native.String.{[], ◌∷◌}
use mathlib.Core.List
use homeserver_rust.Prelude.{
  ℕ, ◌+◌, ◌-◌, ◌*◌, max, Bool, not, ◌&&◌, ◌||◌, List, String, Option, none, some, unwrap_or, ltb,
  leb, ◌=s=◌, ◌==◌, if◌then◌else◌,
}
use homeserver_rust.Prelude.Int.{
  ℤ, pos, ◌-ℤ◌, ltb_ℤ, leb_ℤ, min_ℤ, max_ℤ, i64_min, i64_max, tdiv, to_i64,
}
use homeserver_rust.Prelude.Result.{Result, ok, err}
use homeserver_rust.Text.{trim}
use homeserver_rust.Float.{Float}
use homeserver_rust.Models.{FullSystemSnapshot}
use homeserver_rust.History.Db.{Env, World, DbError}
use homeserver_rust.History.Merge.{get_history}

abbrev pub max_history_span_ms : ℕ
max_history_span_ms = 31 * 24 * 3600 * 1000

abbrev pub max_history_points : ℕ
max_history_points = 50_000

pub record HistoryQuery : Type 0 where
  pub from : Option ℤ
  pub to : Option ℤ
  pub resolution : Option String

-- Of `str::to_lowercase` only what decides the comparisons below: no letter but S and M becomes an
-- "s" or an "m", and a digit only itself.
unfoldable pub to_lowercase : String → String
to_lowercase [] = []
to_lowercase (c ∷ s) =
    (if code c == 83 then "s" else if code c == 77 then "m" else c) ∷ to_lowercase s

-- The digits of `str::parse::<u32>`, after those that make up `acc`.
unfoldable pub parse_digits : ℕ → String → Option ℕ
parse_digits acc [] = some acc
parse_digits acc (c ∷ s) =
    let d = code c in
    let rest = parse_digits (acc * 10 + (d - 48)) s in
    if leb 48 d && leb d 57 && ltb (acc * 10 + (d - 48)) 0x1_0000_0000 then rest else none

-- `str::parse::<u32>`: an optional plus sign and one digit or more.
unfoldable pub parse_u32 : String → Option ℕ
unfolding parse_digits
parse_u32 [] = none
parse_u32 (c ∷ []) = if code c == 43 then none else parse_digits 0 (c ∷ [])
parse_u32 (c ∷ d ∷ s) = if code c == 43 then parse_digits 0 (d ∷ s) else parse_digits 0 (c ∷ d ∷ s)

-- `.filter(|&n| n > 0 && n <= 3600)`
abbrev pub within_hour : Option ℕ → Option ℕ
within_hour none = none
within_hour (some n) = if ltb 0 n && leb n 3600 then some n else none

unfoldable pub parse_resolution : String → Option ℕ
unfolding to_lowercase trim parse_u32
parse_resolution text =
    let s = to_lowercase (trim text) in
    if s =s= "1s" || s =s= "1"
    then some 1
    else if s =s= "30s" || s =s= "30"
    then some 30
    else if s =s= "1m" || s =s= "60"
    then some 60
    else if s =s= "5m" || s =s= "300"
    then some 300
    else within_hour (parse_u32 s)

-- `.as_deref().and_then(parse_resolution).unwrap_or(60)`
unfoldable pub resolution_of : Option String → ℕ
unfolding parse_resolution
resolution_of none = 60
resolution_of (some s) = unwrap_or (parse_resolution s) 60

-- `i64::saturating_sub`
unfoldable pub saturating_sub : ℤ → ℤ → ℤ
unfolding ◌-ℤ◌
saturating_sub a b = max_ℤ i64_min (min_ℤ (a -ℤ b) i64_max)

-- `i64::checked_sub`
unfoldable pub checked_sub : ℤ → ℤ → Option ℤ
unfolding ◌-ℤ◌
checked_sub a b = let d = a -ℤ b in if leb_ℤ i64_min d && leb_ℤ d i64_max then some d else none

pub data HistoryError : Type 0 where
  system_time from_not_less_than_to overflow range_too_large too_many_points : HistoryError

-- The arguments with which the handler calls `get_history`.
pub record HistoryRequest : Type 0 where
  pub from_ts : ℤ
  pub to_ts : ℤ
  pub resolution_secs : ℕ
  pub raw_cutoff_ts : ℤ

-- The checks from `checked_sub` on.
unfoldable pub check_span : ℕ → ℤ → ℤ → ℕ → Option ℤ → Result HistoryError HistoryRequest
unfolding saturating_sub tdiv
check_span raw_retention_hours from_ts to_ts resolution_secs none = err overflow
check_span raw_retention_hours from_ts to_ts resolution_secs (some span_ms) =
    if ltb_ℤ (pos max_history_span_ms) span_ms
    then err range_too_large
    else if ltb_ℤ (pos max_history_points) (tdiv span_ms (max (resolution_secs * 1000) 1))
    then err too_many_points
    else ok (record {
      from_ts = from_ts;
      to_ts = to_ts;
      resolution_secs = resolution_secs;
      raw_cutoff_ts = saturating_sub to_ts (pos (raw_retention_hours * 3600 * 1000));
    })

-- The handler up to its call of `get_history`. There is no time if the clock stands before the epoch.
unfoldable pub check_query : ℕ → Option ℕ → HistoryQuery → Result HistoryError HistoryRequest
unfolding check_span checked_sub resolution_of saturating_sub to_i64
check_query raw_retention_hours none q = err system_time
check_query raw_retention_hours (some now) q =
    let now_ms = to_i64 now in
    let to_ts = unwrap_or q.to now_ms in
    let from_ts = unwrap_or q.from (saturating_sub now_ms (pos (3600 * 1000))) in
    if leb_ℤ to_ts from_ts
    then err from_not_less_than_to
    else check_span raw_retention_hours from_ts to_ts (resolution_of q.resolution)
        (checked_sub to_ts from_ts)

pub data HistoryResponse (F : Type 0) : Type 0 where
  refused : HistoryError → HistoryResponse F
  load_failed : HistoryResponse F
  loaded : List (FullSystemSnapshot F) → HistoryResponse F

module _ {F : Type 0} where
  abbrev pub respond :
      Result DbError (List (FullSystemSnapshot F)) × World F → HistoryResponse F × World F
  respond (ok snapshots, w) = (loaded snapshots, w)
  respond (err e, w) = (load_failed, w)

module _ {F : Type 0} ⦃f : Float F⦄ ⦃env : Env F⦄ where
  abbrev pub load : Result HistoryError HistoryRequest → World F → HistoryResponse F × World F
  load (err e) w = (refused e, w)
  load (ok r) w = respond (get_history r.from_ts r.to_ts r.resolution_secs r.raw_cutoff_ts w)

  unfoldable pub api_history_handler :
      ℕ → Option ℕ → HistoryQuery → World F → HistoryResponse F × World F
  unfolding check_query
  api_history_handler raw_retention_hours now q w = load (check_query raw_retention_hours now q) w
