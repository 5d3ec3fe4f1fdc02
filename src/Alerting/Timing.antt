-- ===== src/Alerting/Timing.antt =====
-- When a rule of src/alerting/mod.rs fires and resolves, over a sequence of snapshots.
use homeserver_rust.Prelude.{
  ℕ, ◌-◌, ◌≤◌, ◌≡◌, ◌⊎◌, inl, inr, Bool, true, false, List, [], ◌∷◌, ◌++◌, map, Option, none, some,
  arith, Option-cases,
}
use homeserver_rust.Float.{Float}
use homeserver_rust.Models.{FullSystemSnapshot}
use homeserver_rust.Config.{AlertRule}
use homeserver_rust.Alerting.Metrics.{extract_metric, compare}
use homeserver_rust.Alerting.Engine.{
  AlertState, AlertEvent, RuleState, idle, from_secs, breached, recovered, evaluate_rule,
}

-- The events of a rule, with the times of the snapshots that raised them.
abbrev pub Trace : Type 0
Trace = List (ℕ × AlertState)

-- A firing comes only while the rule is silent, and a resolution only while it is firing.
abbrev pub Alternates : Bool → Trace → Type 0
Alternates active [] = Unit
Alternates active ((t, AlertState.firing) ∷ rest) = (active ≡ false) × Alternates true rest
Alternates active ((t, AlertState.resolved) ∷ rest) = (active ≡ true) × Alternates false rest

-- A firing comes no sooner than `gap` after the one before it.
abbrev pub After : ℕ → Option ℕ → ℕ → Type 0
After gap none t = Unit
After gap (some l) t = gap ≤ t - l

abbrev pub Spaced : ℕ → Option ℕ → Trace → Type 0
Spaced gap prev [] = Unit
Spaced gap prev ((t, AlertState.firing) ∷ rest) = After gap prev t × Spaced gap (some t) rest
Spaced gap prev ((t, AlertState.resolved) ∷ rest) = Spaced gap prev rest

module _ {F : Type 0} ⦃f : Float F⦄ (rule : AlertRule F) where
  unfoldable pub trace : RuleState → List (FullSystemSnapshot F × ℕ) → Trace
  trace st [] = []
  trace st ((snapshot, now) ∷ more) =
      let (st', events) = evaluate_rule snapshot now rule st in
      map (λ e. (now, e.state)) events ++ trace st' more

  -- Over every sequence of snapshots a rule fires only while it is silent and resolves only while it
  -- fires.
  pub trace-Alternates :
      (st : RuleState) (samples : List (FullSystemSnapshot F × ℕ))
      → Alternates st.firing (trace st samples)
  unfolding trace evaluate_rule breached recovered
  trace-Alternates st [] = tt
  trace-Alternates st ((snapshot, now) ∷ more) =
      ground (arith, trace-Alternates (evaluate_rule snapshot now rule st).0 more)

  -- Two firings of a rule are never closer than its cooldown.
  pub trace-Spaced :
      (st : RuleState) (samples : List (FullSystemSnapshot F × ℕ))
      → Spaced (from_secs rule.cooldown_secs) st.last_fired (trace st samples)
  unfolding trace evaluate_rule breached recovered
  trace-Spaced st [] = tt
  trace-Spaced st ((snapshot, now) ∷ more) =
      ground (arith, trace-Spaced (evaluate_rule snapshot now rule st).0 more)

-- The state after the samples seen so far, the newest first.
module _ {F : Type 0} ⦃f : Float F⦄ (rule : AlertRule F) where
  unfoldable pub state_after : List (FullSystemSnapshot F × ℕ) → RuleState
  state_after [] = idle
  state_after ((snapshot, now) ∷ past) = (evaluate_rule snapshot now rule (state_after past)).0

  -- Whether the rule is breached by a snapshot, if the snapshot has its metric.
  abbrev pub breach : FullSystemSnapshot F → Option Bool
  breach snapshot = elim (extract_metric rule.metric snapshot) [
    | none ↦ none
    | some value ↦ some (compare value rule.op rule.threshold)
  ]

  -- Going back from the newest sample one meets only breached or absent metrics, down to a breached
  -- sample at the time `since`.
  abbrev pub HeldStep : ℕ → ℕ → Option Bool → Type 0 → Type 0
  HeldStep since now none earlier = earlier
  HeldStep since now (some false) earlier = ⊥
  HeldStep since now (some true) earlier = (now ≡ since) ⊎ earlier

  abbrev pub Held : ℕ → List (FullSystemSnapshot F × ℕ) → Type 0
  Held since [] = ⊥
  Held since ((snapshot, now) ∷ past) = HeldStep since now (breach snapshot) (Held since past)

  state_after-Held :
      (past : List (FullSystemSnapshot F × ℕ)) (since : ℕ)
      → (state_after past).breached_since ≡ some since
      → Held since past
  unfolding state_after evaluate_rule breached recovered
  state_after-Held [] since h = cc
  state_after-Held ((snapshot, now) ∷ past) since h = ground (arith, state_after-Held past since)

  -- A rule fires only at the end of a breach that has lasted for its duration.
  pub fires_sustained :
      (past : List (FullSystemSnapshot F × ℕ)) (snapshot : FullSystemSnapshot F) (now : ℕ)
      (e : AlertEvent F)
      → (evaluate_rule snapshot now rule (state_after past)).1 ≡ e ∷ []
      → e.state ≡ AlertState.firing
      → (since : ℕ) × Held since ((snapshot, now) ∷ past)
        × (from_secs rule.duration_secs ≤ now - since)
  unfolding evaluate_rule breached recovered
  fires_sustained past snapshot now e h k = elim (Option-cases (state_after past).breached_since) [
    | inl fresh ↦ (now, ground arith, ground arith)
    | inr (since, began) ↦ (since, ground (arith, state_after-Held past since began), ground arith)
  ]
