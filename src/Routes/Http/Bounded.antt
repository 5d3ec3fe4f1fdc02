-- ===== src/Routes/Http/Bounded.antt =====
-- The requests that the handler of src/routes/http.rs lets through to the database.
use homeserver_rust.Prelude.{
  ℕ, ◌*◌, ◌≤◌, ◌<◌, ◌≡◌, refl, String, Option, none, some, arith, Option-cases, Bool-cases, inl,
  inr, max, sym, unwrap_or, false, subst,
}
use homeserver_rust.Prelude.Int.{
  leb_ℤ, to_i64, ltb_ℤ, +ℤ_parts, -ℤ_parts, ℤ, pos, ◌<ℤ◌, ◌≤ℤ◌, ◌+ℤ◌, ◌-ℤ◌, tdiv,
}
use homeserver_rust.Prelude.Result.{ok, err}
use homeserver_rust.Routes.Http.{
  max_history_span_ms, max_history_points, HistoryQuery, HistoryRequest, HistoryError,
  parse_resolution, resolution_of, saturating_sub, checked_sub, check_span, check_query,
}

parse_resolution-range : (s : String) (n : ℕ) → parse_resolution s ≡ some n → (0 < n) × (n ≤ 3600)
unfolding parse_resolution
parse_resolution-range s n h = ground arith

resolution_of-range : (o : Option String) → (0 < resolution_of o) × (resolution_of o ≤ 3600)
unfolding resolution_of
resolution_of-range none = (omega arith, omega arith)
resolution_of-range (some s) = elim (Option-cases (parse_resolution s)) [
  | inl bad ↦ rw bad (omega arith, omega arith)
  | inr (n, good) ↦ rw good (parse_resolution-range s n good)
]

pub record IsBounded (r : HistoryRequest) : Type 0 where
  pub ordered : r.from_ts <ℤ r.to_ts
  -- at most 31 days
  pub short : r.to_ts ≤ℤ r.from_ts +ℤ pos max_history_span_ms
  -- at most 50 000 points
  pub few : tdiv (r.to_ts -ℤ r.from_ts) (r.resolution_secs * 1000) ≤ℤ pos max_history_points
  pub fine : (0 < r.resolution_secs) × (r.resolution_secs ≤ 3600)

checked_sub-some : (a b d : ℤ) → checked_sub a b ≡ some d → d ≡ a -ℤ b
unfolding checked_sub
checked_sub-some a b d h = ground arith

module _ (from to d : ℤ) (same : d ≡ to -ℤ from) where
  span-short : ltb_ℤ (pos max_history_span_ms) d ≡ false → to ≤ℤ from +ℤ pos max_history_span_ms
  span-short h =
      let diff = -ℤ_parts to from in
      let sum = +ℤ_parts from (pos max_history_span_ms) in ground (arith, same, diff, sum)

  span-few :
      (res : ℕ)
      → 0 < res
      → ltb_ℤ (pos max_history_points) (tdiv d (max (res * 1000) 1)) ≡ false
      → tdiv (to -ℤ from) (res * 1000) ≤ℤ pos max_history_points
  span-few res fine h = rw (sym same) (ground arith)

module _ (hours : ℕ) (from to d : ℤ) (res : ℕ) (r : HistoryRequest) where
  -- What a request that is let through says of the tests.
  check_span-passed :
      check_span hours from to res (some d) ≡ ok r
      → (ltb_ℤ (pos max_history_span_ms) d ≡ false)
        × (ltb_ℤ (pos max_history_points) (tdiv d (max (res * 1000) 1)) ≡ false)
        × (record {
          from_ts = from;
          to_ts = to;
          resolution_secs = res;
          raw_cutoff_ts = saturating_sub to (pos (hours * 3600 * 1000));
        }
            ≡ r)
  unfolding check_span
  check_span-passed h = ground arith

check_span-IsBounded :
    (hours : ℕ) (from to : ℤ) (res : ℕ) (span : Option ℤ) (r : HistoryRequest)
    → from <ℤ to
    → (0 < res) × (res ≤ 3600)
    → ((d : ℤ) → span ≡ some d → d ≡ to -ℤ from)
    → check_span hours from to res span ≡ ok r
    → IsBounded r
unfolding check_span
check_span-IsBounded hours from to res none r before fine spans h = cc
check_span-IsBounded hours from to res (some d) r before fine spans h =
    let (narrow, coarse, this) = check_span-passed hours from to d res r h in
    subst IsBounded this (record {
      ordered = before;
      short = span-short from to d (spans d refl) narrow;
      few = span-few from to d (spans d refl) res fine.0 coarse;
      fine = fine;
    })

-- Whatever the query asks, the handler reads the database only for a range that is not empty, of at
-- most 31 days and at most 50 000 points, at a resolution between one second and an hour.
pub check_query-IsBounded :
    (raw_retention_hours : ℕ) (now : Option ℕ) (q : HistoryQuery) (r : HistoryRequest)
    → check_query raw_retention_hours now q ≡ ok r
    → IsBounded r
unfolding check_query
check_query-IsBounded hours none q r h = cc
check_query-IsBounded hours (some now) q r h = elim (Bool-cases (leb_ℤ to from)) [
  | inl refused ↦ absurd (clash (rw refused at h))
  | inr before ↦
      check_span-IsBounded hours from to (resolution_of q.resolution) (checked_sub to from) r
        (after to from before) (resolution_of-range q.resolution) (checked_sub-some to from)
        (rw before at h)
]
  where
    to : ℤ
    to = unwrap_or q.to (to_i64 now)

    from : ℤ
    from = unwrap_or q.from (saturating_sub (to_i64 now) (pos (3600 * 1000)))

    after : (a b : ℤ) → leb_ℤ a b ≡ false → b <ℤ a
    after a b h = ground arith

    clash : err HistoryError.from_not_less_than_to ≡ ok r → ⊥
    clash h = cc
