-- ===== src/Worker/Sampler/Alerts.antt =====
-- The alerts that the loop of src/worker/mod.rs raises, tick by tick.
use homeserver_rust.Prelude.{
  ℕ, ◌≡◌, refl, sym, ap, ◌∙◌, List, [], ◌∷◌, true, Bool-cases, inl, inr, arith,
}
use homeserver_rust.Float.{Float}
use homeserver_rust.Models.{FullSystemSnapshot}
use homeserver_rust.Config.{AlertRule}
use homeserver_rust.Alerting.Engine.{AlertEngine, new, engine_is_empty, evaluate, evaluate_zip}
use homeserver_rust.Alerting.Product.{engine_after, own_events, evaluate-own_events}
use homeserver_rust.Worker.Sampler.{WorkerConfig, Tick, assemble, alert, sample, sampler_after}

module _ {F : Type 0} ⦃f : Float F⦄ (config : WorkerConfig) where
  -- The snapshots of ticks, with the times at which alerts were evaluated on them.
  abbrev pub snapshots_of : List (Tick F) → List (FullSystemSnapshot F × ℕ)
  snapshots_of [] = []
  snapshots_of (t ∷ past) = (assemble config t, t.now) ∷ snapshots_of past

  -- Without rules the engine need not be asked.
  evaluate-nil :
      (e : AlertEngine F) (snapshot : FullSystemSnapshot F) (now : ℕ)
      → engine_is_empty e ≡ true
      → evaluate e snapshot now ≡ (e, [])
  unfolding evaluate engine_is_empty evaluate_zip
  evaluate-nil e snapshot now none = ground arith

  alert-evaluate :
      (e : AlertEngine F) (snapshot : FullSystemSnapshot F) (now : ℕ)
      → alert e snapshot now ≡ evaluate e snapshot now
  unfolding alert
  alert-evaluate e snapshot now = elim (Bool-cases (engine_is_empty e)) [
    | inl empty ↦ rw empty (sym (evaluate-nil e snapshot now empty))
    | inr rules ↦ rw rules refl
  ]

  engine-sampler_after :
      (rules : List (AlertRule F)) (past : List (Tick F))
      → (sampler_after config (new rules) past).alert_engine
        ≡ engine_after rules (snapshots_of past)
  unfolding sampler_after engine_after sample
  engine-sampler_after rules [] = refl
  engine-sampler_after rules (t ∷ past) =
      ap (λ r. r.0)
        (alert-evaluate (sampler_after config (new rules) past).alert_engine (assemble config t)
          t.now)
      ∙ ap (λ e. (evaluate e (assemble config t) t.now).0) (engine-sampler_after rules past)

  -- At every tick the loop hands to the notifier what the rules would raise alone on the snapshots
  -- of this tick and of those before it, in the order of the rules, also when collectors fail.
  pub sample-own_events :
      (rules : List (AlertRule F)) (past : List (Tick F)) (t : Tick F)
      → (sample config (sampler_after config (new rules) past) t).1.events
        ≡ own_events rules (snapshots_of past) (assemble config t) t.now
  unfolding sample
  sample-own_events rules past t =
      ap (λ r. r.1)
        (alert-evaluate (sampler_after config (new rules) past).alert_engine (assemble config t)
          t.now)
      ∙ ap (λ e. (evaluate e (assemble config t) t.now).1) (engine-sampler_after rules past)
      ∙ evaluate-own_events rules (snapshots_of past) (assemble config t) t.now
