-- ===== src/Worker/Sampler.antt =====
-- The sampling branch of the loop of src/worker/mod.rs: a snapshot is put together, alerts are
-- evaluated on it, and it goes to the WebSocket clients and to the history writer.
pub mod Alerts
use homeserver_rust.Prelude.{
  ℕ, ◌-◌, ◌%◌, ◌^◌, Bool, List, [], ◌∷◌, Option, none, some, unwrap_or, is_none_or, ltb, leb,
  if◌then◌else◌,
}
use homeserver_rust.Float.{Float}
use homeserver_rust.Models.{
  CpuStats, RamStats, ContainerStats, StorageStats, NetworkStats, SystemStatsDynamic, GpuStats,
  SmartHealth, FullSystemSnapshot, cpu_with_usage, ram_with_used, system_default,
}
use homeserver_rust.Alerting.Engine.{AlertEvent, AlertEngine, engine_is_empty, evaluate, from_secs}

pub record WorkerConfig : Type 0 where
  pub sample_interval_ms : ℕ
  pub stats_log_interval_secs : ℕ
  pub prune_interval_secs : ℕ
  pub collect_gpu : Bool
  pub collect_smart : Bool
  pub smart_poll_interval_secs : ℕ

abbrev pub no_receivers_warn_interval : ℕ
no_receivers_warn_interval = from_secs 60

-- What the clock and the collectors give at a tick; `none` is a failure. An `Instant` is a number of
-- nanoseconds: `now` is read for the alerts, `warn_now` for the warning.
pub record Tick (F : Type 0) : Type 0 where
  pub clock : Option ℕ
  pub cpu : Option (CpuStats F)
  pub ram : Option (RamStats F)
  pub containers : List (ContainerStats F)
  pub storage : Option (StorageStats F)
  pub network : Option (NetworkStats F)
  pub system : Option (SystemStatsDynamic F)
  pub gpus : Option (List (GpuStats F))
  pub smart : List SmartHealth
  pub now : ℕ
  pub receivers : ℕ
  pub warn_now : ℕ

-- What the loop keeps from tick to tick.
pub record Sampler (F : Type 0) : Type 0 where
  pub alert_engine : AlertEngine F
  pub last_no_receivers_warn : Option ℕ

-- What a tick sends out: events to the notifier, and perhaps a snapshot to the WebSocket clients.
pub record Sent (F : Type 0) : Type 0 where
  pub events : List (AlertEvent F)
  pub broadcast : Option (FullSystemSnapshot F)
  pub snapshot : FullSystemSnapshot F

-- `d.as_millis() as u64`, or 0 when the clock stands before the epoch.
abbrev pub timestamp_of : Option ℕ → ℕ
timestamp_of none = 0
timestamp_of (some ms) = ms % 2 ^ 64

-- The warning that nobody listens is only logged, but its time is kept.
unfoldable pub warned : Option ℕ → ℕ → ℕ → Option ℕ
warned last receivers now =
    if ltb 0 receivers
    then last
    else if is_none_or last (λ t. leb no_receivers_warn_interval (now - t))
    then some now
    else last

module _ {F : Type 0} ⦃f : Float F⦄ where
  -- A collector that fails gives the default of its part, and the others are kept.
  unfoldable pub assemble : WorkerConfig → Tick F → FullSystemSnapshot F
  assemble config t = record {
    timestamp = timestamp_of t.clock;
    cpu = unwrap_or t.cpu (cpu_with_usage (f.of_ℕ 0));
    ram = unwrap_or t.ram (ram_with_used 0);
    containers = t.containers;
    storage = unwrap_or t.storage (record { partitions = []; disks = [] });
    network = unwrap_or t.network (record { interfaces = [] });
    system = unwrap_or t.system system_default;
    gpus = if config.collect_gpu then unwrap_or t.gpus [] else [];
    smart = t.smart;
  }

  -- `if !alert_engine.is_empty() { … }`
  unfoldable pub alert :
      AlertEngine F → FullSystemSnapshot F → ℕ → AlertEngine F × List (AlertEvent F)
  unfolding engine_is_empty evaluate
  alert engine snapshot now =
      if engine_is_empty engine then (engine, []) else evaluate engine snapshot now

  -- The branch of `tick.tick()` up to `write_tx.send`.
  unfoldable pub sample : WorkerConfig → Sampler F → Tick F → Sampler F × Sent F
  sample config st t =
      let snapshot = assemble config t in
      let (engine, events) = alert st.alert_engine snapshot t.now in
      (
        record {
          alert_engine = engine;
          last_no_receivers_warn = warned st.last_no_receivers_warn t.receivers t.warn_now;
        },
        record {
          events = events;
          broadcast = if ltb 0 t.receivers then some snapshot else none;
          snapshot = snapshot;
        },
      )

  -- The loop before its first tick, and after ticks, the newest first.
  unfoldable pub sampler_after : WorkerConfig → AlertEngine F → List (Tick F) → Sampler F
  sampler_after config engine [] = record { alert_engine = engine; last_no_receivers_warn = none }
  sampler_after config engine (t ∷ past) = (sample config (sampler_after config engine past) t).0
