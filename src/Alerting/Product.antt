-- ===== src/Alerting/Product.antt =====
-- The engine of src/alerting/mod.rs as independent machines, one for each rule.
use homeserver_rust.Prelude.{ℕ, ◌≡◌, refl, ap, List, [], ◌∷◌, ◌++◌, map}
use homeserver_rust.Float.{Float}
use homeserver_rust.Models.{FullSystemSnapshot}
use homeserver_rust.Config.{AlertRule}
use homeserver_rust.Alerting.Engine.{
  AlertEvent, RuleState, AlertEngine, new, evaluate_rule, evaluate_zip, evaluate,
}
use homeserver_rust.Alerting.Timing.{state_after}

module _ {F : Type 0} ⦃f : Float F⦄ where
  -- The engine after the samples that the worker has passed to it, the newest first.
  unfoldable pub engine_after : List (AlertRule F) → List (FullSystemSnapshot F × ℕ) → AlertEngine F
  engine_after rules [] = new rules
  engine_after rules ((snapshot, now) ∷ past) = (evaluate (engine_after rules past) snapshot now).0

  -- The events that each rule raises on its own, in the order of the rules.
  pub own_events :
      List (AlertRule F)
      → List (FullSystemSnapshot F × ℕ)
      → FullSystemSnapshot F
      → ℕ
      → List (AlertEvent F)
  own_events [] past snapshot now = []
  own_events (rule ∷ rules) past snapshot now =
      (evaluate_rule snapshot now rule (state_after rule past)).1
      ++ own_events rules past snapshot now

  zip_states :
      (rules : List (AlertRule F)) (g : AlertRule F → RuleState) (snapshot : FullSystemSnapshot F)
      (now : ℕ)
      → (evaluate_zip snapshot now rules (map g rules)).0
        ≡ map (λ r. (evaluate_rule snapshot now r (g r)).0) rules
  unfolding evaluate_zip
  zip_states [] g snapshot now = refl
  zip_states (r ∷ rules) g snapshot now =
      ap (◌∷◌ (evaluate_rule snapshot now r (g r)).0) (zip_states rules g snapshot now)

  zip_events :
      (rules : List (AlertRule F)) (past : List (FullSystemSnapshot F × ℕ))
      (snapshot : FullSystemSnapshot F) (now : ℕ)
      → (evaluate_zip snapshot now rules (map (λ r. state_after r past) rules)).1
        ≡ own_events rules past snapshot now
  unfolding evaluate_zip own_events
  zip_events [] past snapshot now = refl
  zip_events (r ∷ rules) past snapshot now = ap (◌++◌ _) (zip_events rules past snapshot now)

  rules-engine_after :
      (rules : List (AlertRule F)) (past : List (FullSystemSnapshot F × ℕ))
      → (engine_after rules past).rules ≡ rules
  unfolding engine_after evaluate new
  rules-engine_after rules [] = refl
  rules-engine_after rules (s ∷ past) = rules-engine_after rules past

  evaluate-zip :
      (e : AlertEngine F) (snapshot : FullSystemSnapshot F) (now : ℕ)
      → ((evaluate e snapshot now).0.states ≡ (evaluate_zip snapshot now e.rules e.states).0)
        × ((evaluate e snapshot now).1 ≡ (evaluate_zip snapshot now e.rules e.states).1)
  unfolding evaluate
  evaluate-zip e snapshot now = (refl, refl)

  states-engine_after :
      (rules : List (AlertRule F)) (past : List (FullSystemSnapshot F × ℕ))
      → (engine_after rules past).states ≡ map (λ r. state_after r past) rules
  unfolding engine_after new state_after
  states-engine_after rules [] = refl
  states-engine_after rules ((snapshot, now) ∷ past) =
      rw
        (
          (evaluate-zip (engine_after rules past) snapshot now).0,
          rules-engine_after rules past,
          states-engine_after rules past,
        )
        (zip_states rules (λ r. state_after r past) snapshot now)

  -- At every round the engine raises what its rules would raise alone, in the order of the rules.
  pub evaluate-own_events :
      (rules : List (AlertRule F)) (past : List (FullSystemSnapshot F × ℕ))
      (snapshot : FullSystemSnapshot F) (now : ℕ)
      → (evaluate (engine_after rules past) snapshot now).1 ≡ own_events rules past snapshot now
  evaluate-own_events rules past snapshot now =
      rw
        (
          (evaluate-zip (engine_after rules past) snapshot now).1,
          rules-engine_after rules past,
          states-engine_after rules past,
        )
        (zip_events rules past snapshot now)
