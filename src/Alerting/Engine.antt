-- ===== src/Alerting/Engine.antt =====
-- src/alerting/mod.rs: the engine. An `Instant` is a number of nanoseconds, and
-- `duration_since` stops at zero, as subtraction on ℕ does.
use homeserver_rust.Prelude.{
  ℕ, ◌-◌, ◌*◌, Bool, true, false, not, ◌&&◌, String, List, [], ◌∷◌, ◌++◌, map, Option, none, some,
  leb, unwrap_or, is_none_or, is_empty, if◌then◌else◌,
}
use homeserver_rust.Float.{Float}
use homeserver_rust.Models.{FullSystemSnapshot}
use homeserver_rust.Config.{AlertRule}
use homeserver_rust.Alerting.Metrics.{extract_metric, compare}

pub data AlertState : Type 0 where
  firing resolved : AlertState

pub record AlertEvent (F : Type 0) : Type 0 where
  pub rule_name : String
  pub metric : String
  pub op : String
  pub value : F
  pub threshold : F
  pub state : AlertState

pub record RuleState : Type 0 where
  pub breached_since : Option ℕ
  pub firing : Bool
  pub last_fired : Option ℕ

-- `RuleState::default()`
abbrev pub idle : RuleState
idle = record { breached_since = none; firing = false; last_fired = none }

-- `Duration::from_secs`, in nanoseconds.
abbrev pub from_secs : ℕ → ℕ
from_secs n = n * 1_000_000_000

pub record AlertEngine (F : Type 0) : Type 0 where
  pub rules : List (AlertRule F)
  pub states : List RuleState

unfoldable pub new : {F : Type 0} → List (AlertRule F) → AlertEngine F
new rules = record { rules = rules; states = map (λ _. idle) rules }

unfoldable pub engine_is_empty : {F : Type 0} → AlertEngine F → Bool
engine_is_empty e = is_empty e.rules

abbrev pub event : {F : Type 0} → AlertRule F → F → AlertState → AlertEvent F
event rule value state = record {
  rule_name = rule.name;
  metric = rule.metric;
  op = rule.op;
  value = value;
  threshold = rule.threshold;
  state = state;
}

module _ {F : Type 0} where
  -- The branch of a breached rule. `get_or_insert` keeps the start of the breach.
  unfoldable pub breached : AlertRule F → F → ℕ → RuleState → RuleState × List (AlertEvent F)
  breached rule value now st =
      let since = unwrap_or st.breached_since now in
      let sustained = leb (from_secs rule.duration_secs) (now - since) in
      let cooled = is_none_or st.last_fired (λ t. leb (from_secs rule.cooldown_secs) (now - t)) in
      if sustained && not st.firing && cooled
      then (
        record { breached_since = some since; firing = true; last_fired = some now },
        event rule value firing ∷ [],
      )
      else (record st { breached_since = some since }, [])

  -- The branch of a rule whose metric is within bounds.
  unfoldable pub recovered : AlertRule F → F → RuleState → RuleState × List (AlertEvent F)
  recovered rule value st = (
    record st { firing = false; breached_since = none },
    if st.firing then event rule value resolved ∷ [] else [],
  )

module _ {F : Type 0} ⦃f : Float F⦄ where
  -- One round of the loop of `evaluate`. A metric that is absent changes nothing (`continue`).
  unfoldable pub evaluate_rule :
      FullSystemSnapshot F → ℕ → AlertRule F → RuleState → RuleState × List (AlertEvent F)
  evaluate_rule snapshot now rule st = elim (extract_metric rule.metric snapshot) [
    | none ↦ (st, [])
    | some value ↦
        if compare value rule.op rule.threshold
        then breached rule value now st
        else recovered rule value st
  ]

  -- `self.rules.iter().zip(self.states.iter_mut())`: a state with no rule is left alone.
  unfoldable pub evaluate_zip :
      FullSystemSnapshot F
      → ℕ
      → List (AlertRule F)
      → List RuleState
      → List RuleState × List (AlertEvent F)
  evaluate_zip snapshot now [] sts = (sts, [])
  evaluate_zip snapshot now (rule ∷ rules) [] = ([], [])
  evaluate_zip snapshot now (rule ∷ rules) (st ∷ sts) =
      let (st', events) = evaluate_rule snapshot now rule st in
      let (sts', later) = evaluate_zip snapshot now rules sts in (st' ∷ sts', events ++ later)

  unfoldable pub evaluate :
      AlertEngine F → FullSystemSnapshot F → ℕ → AlertEngine F × List (AlertEvent F)
  unfolding evaluate_zip evaluate_rule breached recovered
  evaluate engine snapshot now =
      let (states, events) = evaluate_zip snapshot now engine.rules engine.states in
      (record engine { states = states }, events)
