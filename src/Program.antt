-- ===== src/Program.antt =====
-- src/main.rs: the program loads its configuration, opens its parts, rolls up what a former run
-- left, and starts its tasks. The parts are in the modules that this file uses.
pub mod Starts
pub mod Keeps
pub mod Shutdown
use homeserver_rust.Prelude.{
  ℕ, Bool, true, false, String, List, [], ◌∷◌, Option, none, some, ◌⊎◌, inl, inr,
}
use homeserver_rust.Prelude.Result.{Result, ok, err, ◌>>=◌, ensure}
use homeserver_rust.Float.{Float}
use homeserver_rust.Models.{SystemInfo}
use homeserver_rust.Config.{AppConfig}
use homeserver_rust.Config.Load.{AppFields, LoadError, or_fail, map_err, load}
use homeserver_rust.History.Blob.{Bytes}
use homeserver_rust.History.Db.{RawRow, AggRow, Env, World}
use homeserver_rust.History.Schema.{Table, Store}
use homeserver_rust.History.Schema
use homeserver_rust.History.Raw.{retention_ms_of}
use homeserver_rust.AggregationWorker.{AggregationWorkerConfig, run_backfill}
use homeserver_rust.AggregationWorker.Service.{Service, spawn}
use homeserver_rust.Alerting.Engine
use homeserver_rust.Alerting.Notify
use homeserver_rust.Alerting.Notify.{Notifier}
use homeserver_rust.Worker.HistoryWriter.{HistoryWriterConfig}
use homeserver_rust.Worker.Sampler.{WorkerConfig}
use homeserver_rust.Worker.Pipeline.{Pipeline, launch}

-- What the machine answers at the start: the file of the configuration, whether the parts can be
-- opened, the row of `system_info` once the schema is there, and the clock at the backfill and at the
-- prune that ends it.
pub record Startup : Type 0 where
  pub config_file : Option String
  pub read_to_string : String → Option String
  pub system_info : Option SystemInfo
  pub docker_connects : Bool
  pub history_connects : Bool
  pub stored_info : Option Bytes
  pub backfill_now : Option ℕ
  pub backfill_prune_now : Option ℕ
  pub binds : Bool

pub data StartError : Type 0 where
  config : LoadError → StartError
  system_info docker connect init bind : StartError

-- The file of the database, whose history has raw rows and whose aggregated table the others, and
-- which statements the engine refuses: of `init`, for each transaction, and after it.
pub record Disk (F : Type 0) : Type 0 where
  pub store : Store (RawRow F ⊎ AggRow F)
  pub init_faults : List Bool
  pub faults : List Bool

-- What runs once the listener is bound. The worker, its channel and the writer are the pipeline, and
-- `aggregation` is the task that `enable_aggregation` asks for.
pub record Program (F C : Type 0) : Type 0 where
  pub app_config : AppConfig F
  pub info : SystemInfo
  pub aggregation : Option (Service F)
  pub writer_config : HistoryWriterConfig
  pub worker_config : WorkerConfig
  pub notifier : Notifier C
  pub pipeline : Pipeline F

module _ {A B : Type 0} where
  abbrev pub lefts : List (A ⊎ B) → List A
  lefts [] = []
  lefts (inl a ∷ rest) = a ∷ lefts rest
  lefts (inr b ∷ rest) = lefts rest

  abbrev pub rights : List (A ⊎ B) → List B
  rights [] = []
  rights (inl a ∷ rest) = rights rest
  rights (inr b ∷ rest) = b ∷ rights rest

abbrev pub rows_of : {R : Type 0} → Option (Table R) → List R
rows_of none = []
rows_of (some t) = t.rows

module _ {F : Type 0} where
  -- `history_repo.init().await?`, and the tables that it leaves.
  abbrev pub opened :
      Startup
      → Disk F
      → Result (Unit {0}) (Unit {0}) × (Store (RawRow F ⊎ AggRow F) × List Bool)
      → Result StartError (World F)
  opened startup disk (ok u, (s, more)) = ok (record {
    db = record {
      raw = lefts (rows_of s.history);
      agg = rights (rows_of s.aggregated);
      info = startup.stored_info;
    };
    faults = disk.faults;
  })
  opened startup disk (err e, after) = err init

  unfoldable pub open_history : Startup → Disk F → Result StartError (World F)
  unfolding Schema.init
  open_history startup disk = opened startup disk (Schema.init (disk.store, disk.init_faults))

  unfoldable pub aggregation_config_of : AppConfig F → AggregationWorkerConfig
  aggregation_config_of c = record {
    aggregation_interval_secs = c.database.aggregation_interval_secs;
    raw_retention_hours = c.database.raw_retention_hours;
    minute_retention_hours = c.database.minute_retention_hours;
    retention_days = c.database.retention_days;
    vacuum_schedule = c.database.vacuum_schedule;
    vacuum_interval_secs = c.database.vacuum_interval_secs;
  }

  unfoldable pub writer_config_of : AppConfig F → HistoryWriterConfig
  writer_config_of c = record {
    flush_rate = c.database.flush_rate;
    flush_interval_secs = c.database.flush_interval_secs;
    persist_gpu = c.database.persist_gpu;
    persist_smart = c.database.persist_smart;
  }

  unfoldable pub worker_config_of : AppConfig F → WorkerConfig
  worker_config_of c = record {
    sample_interval_ms = c.monitoring.sample_interval_ms;
    stats_log_interval_secs = c.monitoring.stats_log_interval_secs;
    prune_interval_secs = c.database.prune_interval_secs;
    collect_gpu = c.monitoring.collect_gpu;
    collect_smart = c.monitoring.collect_smart;
    smart_poll_interval_secs = c.monitoring.smart_poll_interval_secs;
  }

  -- The retention with which the repository is connected.
  abbrev pub retention_of : AppConfig F → ℕ
  retention_of c = retention_ms_of c.database.retention_days

module _ {F : Type 0} ⦃f : Float F⦄ ⦃env : Env F⦄ (cron_accepts : String → Bool) where
  -- `if app_config.database.enable_aggregation { … }`: an error of the backfill is only logged.
  unfoldable pub start_aggregation :
      Bool → AppConfig F → Startup → World F → World F × Option (Service F)
  unfolding run_backfill spawn aggregation_config_of
  start_aggregation false c startup w = (w, none)
  start_aggregation true c startup w =
      let backfilled =
        (run_backfill (aggregation_config_of c) (retention_of c) startup.backfill_now
          startup.backfill_prune_now w).1 in
      (backfilled, some (spawn cron_accepts (aggregation_config_of c) backfilled))

  module _ {C : Type 0} (new_client : C) where
    -- What follows the opening of the parts.
    unfoldable pub start_tasks : AppConfig F → SystemInfo → Startup → World F → Program F C
    unfolding start_aggregation writer_config_of worker_config_of Engine.new Notify.new launch
    start_tasks c info startup w =
        let (w', aggregation) = start_aggregation c.database.enable_aggregation c startup w in
        record {
          app_config = c;
          info = info;
          aggregation = aggregation;
          writer_config = writer_config_of c;
          worker_config = worker_config_of c;
          notifier = Notify.new new_client c.alerts.webhook_url;
          pipeline = launch (Engine.new c.alerts.rules) 0 w';
        }

    -- `main`, to where it serves requests.
    unfoldable pub start :
        (String → Option (AppFields F)) → Startup → Disk F → Result StartError (Program F C)
    unfolding load open_history start_tasks
    start from_str startup disk = do
      c ←
          map_err StartError.config
            (load cron_accepts from_str startup.config_file startup.read_to_string)
      info ← or_fail StartError.system_info startup.system_info
      _ ← ensure startup.docker_connects docker
      _ ← ensure startup.history_connects connect
      w ← open_history startup disk
      let program = start_tasks c info startup w
      _ ← ensure startup.binds bind
      ok program
