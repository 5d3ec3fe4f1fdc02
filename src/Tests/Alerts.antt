-- ===== src/Tests/Alerts.antt =====
-- Runs of the alert engine, and its theorems at them.
use homeserver_rust.Prelude.{ℕ, ◌-◌, ◌≤◌, ◌≡◌, refl, false, List, [], ◌∷◌, none}
use homeserver_rust.Models.{FullSystemSnapshot}
use homeserver_rust.Config.{AlertRule}
use homeserver_rust.Alerting.Metrics.{extract_metric, compare}
use homeserver_rust.Alerting.Engine.{
  AlertState, idle, from_secs, event, new, breached, recovered, evaluate_rule, evaluate,
}
use homeserver_rust.Alerting.Timing.{
  Alternates, Spaced, trace, trace-Alternates, trace-Spaced, state_after, Held, fires_sustained,
}
use homeserver_rust.Alerting.Product.{engine_after, own_events, evaluate-own_events}
use homeserver_rust.Tests.Setup.{nat_float, sample}

program : Unit {0}
unfolding evaluate evaluate_rule breached recovered extract_metric compare state_after new trace
    nat_float
program = tt

-- The processor above 90 for five seconds, and a minute between two alerts.
abbrev pub rule : AlertRule ℕ
rule = record {
  name = "cpu";
  metric = "cpu_usage";
  op = ">";
  threshold = 90;
  duration_secs = 5;
  cooldown_secs = 60;
}

abbrev samples : List (FullSystemSnapshot ℕ × ℕ)
samples =
    (sample 0 95, 0)
    ∷ (sample 3 95, from_secs 3)
    ∷ (sample 5 95, from_secs 5)
    ∷ (sample 8 50, from_secs 8)
    ∷ (sample 9 99, from_secs 9)
    ∷ (sample 20 99, from_secs 20)
    ∷ (sample 65 99, from_secs 65)
    ∷ []

run_of_samples :
    trace rule idle samples
    ≡ (from_secs 5, AlertState.firing)
      ∷ (from_secs 8, AlertState.resolved)
      ∷ (from_secs 65, AlertState.firing)
      ∷ []
unfolding program
run_of_samples = refl

trace-Alternates_example : Alternates false (trace rule idle samples)
trace-Alternates_example = trace-Alternates rule idle samples

trace-Spaced_example : Spaced (from_secs 60) none (trace rule idle samples)
trace-Spaced_example = trace-Spaced rule idle samples

abbrev past : List (FullSystemSnapshot ℕ × ℕ)
past = (sample 3 95, from_secs 3) ∷ (sample 0 95, 0) ∷ []

fires_sustained_example :
    (since : ℕ) × Held rule since ((sample 5 95, from_secs 5) ∷ past)
    × (from_secs 5 ≤ from_secs 5 - since)
unfolding program
fires_sustained_example =
    fires_sustained rule past (sample 5 95) (from_secs 5) (event rule 95 AlertState.firing) refl
      refl

evaluate-own_events_example :
    (evaluate (engine_after (rule ∷ rule ∷ []) past) (sample 5 95) (from_secs 5)).1
    ≡ own_events (rule ∷ rule ∷ []) past (sample 5 95) (from_secs 5)
evaluate-own_events_example =
    evaluate-own_events (rule ∷ rule ∷ []) past (sample 5 95) (from_secs 5)
