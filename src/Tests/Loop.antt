-- ===== src/Tests/Loop.antt =====
-- A run of the loop with its writer, and the theorems at it.
use homeserver_rust.Prelude.{
  ℕ, ◌≤◌, ◌≡◌, refl, true, false, [], ◌∷◌, ◌++◌, none, some, arith, map, length,
}
use homeserver_rust.Models.{cpu_with_usage}
use homeserver_rust.Alerting.Engine.{new}
use homeserver_rust.Alerting.Product.{own_events}
use homeserver_rust.History.Db.{World}
use homeserver_rust.Worker.HistoryWriter.{
  HistoryWriterConfig, strip, received, flush_buffer, turn, writer_channel_capacity,
}
use homeserver_rust.Worker.Sampler.{WorkerConfig, Tick, assemble, sample, sampler_after}
use homeserver_rust.Worker.Sampler.Alerts.{snapshots_of, sample-own_events}
use homeserver_rust.Worker.Pipeline.{
  Pipeline, wrote, launch, sampled, Reach, start, next, sampling, sending, stopping, receiving,
  finishing,
}
use homeserver_rust.Worker.Pipeline.Conserves.{in_flight, Reach-conserves}
use homeserver_rust.Tests.Alerts.{rule}
use homeserver_rust.Tests.Setup.{nat_float, test_env, test_env-IsExactEnv, host}

abbrev pub loop_config : WorkerConfig
loop_config = record {
  sample_interval_ms = 1_000;
  stats_log_interval_secs = 60;
  prune_interval_secs = 3_600;
  collect_gpu = true;
  collect_smart = false;
  smart_poll_interval_secs = 600;
}

abbrev writer_config : HistoryWriterConfig
writer_config = record {
  flush_rate = 2;
  flush_interval_secs = 60;
  persist_gpu = false;
  persist_smart = true;
}

-- A tick at which only the processor can be read.
abbrev pub tick : ℕ → ℕ → Tick ℕ
tick ms usage = record {
  clock = some ms;
  cpu = some (cpu_with_usage usage);
  ram = none;
  containers = [];
  storage = none;
  network = none;
  system = none;
  gpus = none;
  smart = [];
  now = ms;
  receivers = 0;
  warn_now = ms;
}

abbrev pub empty_world : World ℕ
empty_world = record { db = record { raw = []; agg = []; info = none }; faults = [] }

abbrev launched : Pipeline ℕ
launched = launch (new []) 0 empty_world

abbrev sampled_once : Pipeline ℕ
sampled_once = sampled loop_config launched (tick 1_000 5)

abbrev sent_once : Pipeline ℕ
sent_once = record sampled_once { pending = none; queue = assemble loop_config (tick 1_000 5) ∷ [] }

abbrev stopped_once : Pipeline ℕ
stopped_once = record sent_once { running = false }

abbrev received_once : Pipeline ℕ
received_once =
    record (wrote stopped_once (
      turn writer_config host stopped_once.writer
        (received (assemble loop_config (tick 1_000 5))))) { queue = [] }

abbrev ended_once : Pipeline ℕ
ended_once = record (wrote received_once (flush_buffer writer_config host received_once.writer).1) {
  finished = true;
}

reached_sent : Reach loop_config writer_config host sent_once
unfolding launch sampled sample writer_channel_capacity
reached_sent =
    next (next (start (new []) 0 empty_world) (sampling (tick 1_000 5) refl refl))
      (sending (assemble loop_config (tick 1_000 5)) refl (omega arith))

reached_ended : Reach loop_config writer_config host ended_once
unfolding launch sampled sample wrote
reached_ended =
    next
      (next (next reached_sent (stopping refl refl))
        (receiving (assemble loop_config (tick 1_000 5)) [] refl refl))
      (finishing refl refl refl)

Reach-conserves_example :
    (map (strip writer_config) sent_once.samples
      ≡ sent_once.committed
        ++ (sent_once.writer.buffer ++ map (strip writer_config) (in_flight sent_once)))
    × (length sent_once.queue ≤ writer_channel_capacity writer_config.flush_rate)
Reach-conserves_example =
    Reach-conserves test_env-IsExactEnv loop_config writer_config host sent_once reached_sent

sample-own_events_example :
    (sample loop_config
      (sampler_after loop_config (new (rule ∷ [])) (tick 1_000 95 ∷ []))
      (tick 7_000 96)).1.events
    ≡ own_events
        (rule ∷ [])
        (snapshots_of loop_config (tick 1_000 95 ∷ []))
        (assemble loop_config (tick 7_000 96))
        (tick 7_000 96).now
sample-own_events_example =
    sample-own_events loop_config (rule ∷ []) (tick 1_000 95 ∷ []) (tick 7_000 96)
