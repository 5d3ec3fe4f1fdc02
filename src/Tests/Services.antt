-- ===== src/Tests/Services.antt =====
-- A run of the aggregation worker and a configuration file, with the theorems at them.
use homeserver_rust.Prelude.{
  ℕ, ◌≡◌, refl, Bool, true, false, String, Option, none, some, arith, inl, [], ◌∷◌,
}
use homeserver_rust.Prelude.Result.{ok}
use homeserver_rust.Config.{AppConfig}
use homeserver_rust.Config.Load.{AppFields, alerts_of, load_from_str}
use homeserver_rust.Config.Load.Completes.{IsCompleted}
use homeserver_rust.Config.Load.Defaults.{AreValid, load_from_str-defaults}
use homeserver_rust.AggregationWorker.{AggregationWorkerConfig}
use homeserver_rust.AggregationWorker.Among.{Gaps, Meanwhile, commits, prunes}
use homeserver_rust.Prelude.Int.{ℤ}
use homeserver_rust.AggregationWorker.Service.{
  Service, spawn, ticked, pruned, Run, stay, then_step, ticking, pruning,
}
use homeserver_rust.AggregationWorker.Service.Keeps.{IsAccounted, Run-keeps}
use homeserver_rust.AggregationWorker.Service.Counts.{IsSpinning, spawn-spins}
use homeserver_rust.Tests.Setup.{nat_float, test_env, test_env-IsOrdering}
use homeserver_rust.Tests.Store.{raw_at, world, config}

abbrev pub cron_accepts : String → Bool
cron_accepts s = true

-- In every round the writer commits a row after the read, and the sampling worker prunes after it.
abbrev gaps : ℤ → Gaps ℕ
gaps b = record {
  after_read = commits (raw_at 1_500 ∷ []) ∷ [];
  after_save = [];
  after_delete = prunes 0 ∷ [];
}

abbrev meanwhile : Meanwhile ℕ
meanwhile = record {
  clocks = some 8_000_000 ∷ [];
  before_raw = commits (raw_at 61_000 ∷ []) ∷ [];
  raw_rounds = gaps;
  before_minutes = [];
  minute_rounds = gaps;
}

-- The service at the start, and after a pass whose third statement fails and a prune.
abbrev spawned : Service ℕ
spawned = spawn cron_accepts config world

abbrev after_pass : Service ℕ
after_pass = ticked config 86_400_000 (some 8_000_000) (some 8_000_000) meanwhile spawned

Run-keeps_example :
    IsAccounted 86_400_000 (raw_at 1_000) (pruned 86_400_000 (some 9_000_000) after_pass)
unfolding spawn ticked pruned
Run-keeps_example =
    Run-keeps test_env-IsOrdering config 86_400_000 (raw_at 1_000) spawned
      (pruned 86_400_000 (some 9_000_000) after_pass) (inl refl)
      (then_step (then_step stay (ticking (some 8_000_000) (some 8_000_000) meanwhile refl))
        (pruning (some 9_000_000)))

-- The fields of a file that leaves out all that has a default, but for the schedule.
abbrev pub fields : AppFields ℕ
fields = record {
  server = record { port = 8080; host = "0.0.0.0" };
  database = record {
    path = "data.db";
    max_pool_size = 5;
    flush_rate = 10;
    flush_interval_secs = none;
    retention_days = none;
    prune_interval_secs = none;
    enable_aggregation = none;
    aggregation_interval_secs = none;
    raw_retention_hours = none;
    minute_retention_hours = none;
    vacuum_schedule = some "0 3 * * 0";
    vacuum_interval_secs = none;
    persist_gpu = none;
    persist_smart = none;
  };
  publishing = record {
    cpu_stats_frequency_ms = 1000;
    ram_stats_frequency_ms = 1000;
    broadcast_capacity = 16;
  };
  monitoring = record {
    sample_interval_ms = 1000;
    stats_log_interval_secs = 60;
    collect_gpu = none;
    collect_smart = none;
    smart_poll_interval_secs = none;
  };
  alerts = none;
}

abbrev pub from_str : String → Option (AppFields ℕ)
from_str s = some fields

fields-AreValid : AreValid cron_accepts fields
unfolding alerts_of
fields-AreValid = record {
  port = omega arith;
  path = λ h. cc;
  max_pool_size = omega arith;
  flush_rate = omega arith;
  flush_interval = tt;
  retention = tt;
  prune_interval = tt;
  schedule = refl;
  vacuum_interval = tt;
  aggregation_interval = tt;
  raw_retention = tt;
  minute_retention = tt;
  cpu_frequency = omega arith;
  ram_frequency = omega arith;
  broadcast = omega arith;
  sample_interval = omega arith;
  stats_log_interval = omega arith;
  rules = tt;
}

load_from_str-defaults_example :
    (c : AppConfig ℕ) × (load_from_str cron_accepts from_str "[server]" ≡ ok c)
    × IsCompleted fields c
load_from_str-defaults_example =
    load_from_str-defaults cron_accepts from_str "[server]" fields refl fields-AreValid

-- A schedule that is refused.
abbrev refuses : String → Bool
refuses s = false

abbrev daily : AggregationWorkerConfig
daily = record config { vacuum_schedule = some "daily" }

spawn-spins_example :
    (t : Service ℕ) × Run daily 86_400_000 (spawn refuses daily world) t × IsSpinning 3 0 t
spawn-spins_example = spawn-spins daily 86_400_000 refuses "daily" world 3 refl refl
