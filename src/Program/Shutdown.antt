-- ===== src/Program/Shutdown.antt =====
-- The end of `main` in src/main.rs: when the server stops it tells the worker to shut down and awaits
-- it, awaits the writer, and then ends the aggregation worker. The tasks go on in between.
pub mod Drains
pub mod Returns
use homeserver_rust.Prelude.{Bool, true, false, ◌≡◌, Option, none, some, String}
use homeserver_rust.Float.{Float}
use homeserver_rust.History.Db.{Env, World}
use homeserver_rust.AggregationWorker.Service.{Service}
use homeserver_rust.AggregationWorker.Service
use homeserver_rust.Worker.Pipeline.{Pipeline}
use homeserver_rust.Worker.Pipeline
use homeserver_rust.Program.{Program, aggregation_config_of, retention_of}

-- Where `main` is: it serves, or awaits the worker, the writer or the aggregation worker, or has
-- returned.
pub data Phase : Type 0 where
  serving worker_awaited writer_awaited aggregation_awaited returned : Phase

pub record Running (F : Type 0) : Type 0 where
  pub phase : Phase
  pub pipeline : Pipeline F
  pub aggregation : Option (Service F)

-- The worker does not stop before its shutdown is sent.
abbrev pub MayStop : Phase → Bool → Bool → Type 0
MayStop serving before after = after ≡ before
MayStop worker_awaited before after = Unit
MayStop writer_awaited before after = Unit
MayStop aggregation_awaited before after = Unit
MayStop returned before after = Unit

-- Nor does the aggregation worker, whose shutdown is sent last.
abbrev pub MayStopLast : Phase → Bool → Bool → Type 0
MayStopLast serving before after = after ≡ before
MayStopLast worker_awaited before after = after ≡ before
MayStopLast writer_awaited before after = after ≡ before
MayStopLast aggregation_awaited before after = Unit
MayStopLast returned before after = Unit

-- The task is over, if there is one.
abbrev pub HasStopped : {F : Type 0} → Option (Service F) → Type 0
HasStopped none = Unit
HasStopped (some s) = s.running ≡ false

module _ {F C : Type 0} ⦃f : Float F⦄ ⦃env : Env F⦄ (program : Program F C) where
  -- The tasks' steps, each beside the other, and those of `main`.
  pub data Step : Running F → Running F → Type 0 where
    working :
        {r : Running F}
        → (q : Pipeline F)
        → Pipeline.Step program.worker_config program.writer_config program.info r.pipeline q
        → MayStop r.phase r.pipeline.running q.running
        → Step r (record r { pipeline = q })
    aggregating :
        {r : Running F}
        → (s t : Service F) → r.aggregation ≡ some s
        → Service.Step
            (aggregation_config_of program.app_config)
            (retention_of program.app_config)
            s
            t
        → MayStopLast r.phase s.running t.running
        → Step r (record r { aggregation = some t })
    server_stopped :
        {r : Running F} → r.phase ≡ serving → Step r (record r { phase = worker_awaited })
    worker_joined :
        {r : Running F}
        → r.phase ≡ worker_awaited
        → r.pipeline.running ≡ false
        → Step r (record r { phase = writer_awaited })
    writer_joined :
        {r : Running F}
        → r.phase ≡ writer_awaited
        → r.pipeline.finished ≡ true
        → Step r (record r { phase = aggregation_awaited })
    aggregation_joined :
        {r : Running F}
        → r.phase ≡ aggregation_awaited
        → HasStopped r.aggregation
        → Step r (record r { phase = returned })

  -- From the start of the tasks on.
  pub data Reach : Running F → Type 0 where
    start :
        Reach (record {
          phase = serving;
          pipeline = program.pipeline;
          aggregation = program.aggregation;
        })
    next : {r s : Running F} → Reach r → Step r s → Reach s
