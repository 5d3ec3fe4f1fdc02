-- ===== src/Program/Shutdown/Drains.antt =====
-- What `main` of src/main.rs leaves behind when it returns.
use homeserver_rust.Prelude.{
  ◌≡◌, refl, subst, Bool, true, false, String, [], ◌++◌, Option, some, map,
}
use homeserver_rust.Prelude.Result.{ok, Yields-ok}
use homeserver_rust.Float.{Float}
use homeserver_rust.Models.{SystemInfo}
use homeserver_rust.Config.{AppConfig}
use homeserver_rust.Config.Load.{AppFields}
use homeserver_rust.History.Db.{Env, IsExactEnv, World}
use homeserver_rust.AggregationWorker.{AggregationWorkerConfig}
use homeserver_rust.AggregationWorker.Service.{Service, vacuumed, pruned, ticked}
use homeserver_rust.AggregationWorker.Service
use homeserver_rust.Worker.HistoryWriter.{strip}
use homeserver_rust.Worker.Pipeline.{Pipeline, wrote, sampled}
use homeserver_rust.Worker.Pipeline
use homeserver_rust.Worker.Pipeline.Conserves.{in_flight, finished-drained}
use homeserver_rust.Program.{Startup, Disk, Program, start_tasks, start}
use homeserver_rust.Program.Starts.{start-Yields}
use homeserver_rust.Program.Shutdown.{
  Phase, serving, worker_awaited, writer_awaited, aggregation_awaited, returned, Running,
  HasStopped, Step, working, aggregating, server_stopped, worker_joined, writer_joined,
  aggregation_joined, Reach,
}

-- The writer has ended once `main` has gone past it, and the aggregation worker at the end.
abbrev pub IsPast : {F : Type 0} → Phase → Pipeline F → Option (Service F) → Type 0
IsPast serving p aggregation = Unit
IsPast worker_awaited p aggregation = Unit
IsPast writer_awaited p aggregation = Unit
IsPast aggregation_awaited p aggregation = p.finished ≡ true
IsPast returned p aggregation = (p.finished ≡ true) × HasStopped aggregation

module _ {F : Type 0} ⦃f : Float F⦄ ⦃env : Env F⦄ where
  -- Nothing that happens sets the ended writer, or the ended worker, going again.
  step-finished :
      (config : _) (writing : _) (info : SystemInfo) (p q : Pipeline F)
      → Pipeline.Step config writing info p q
      → p.finished ≡ true
      → q.finished ≡ true
  unfolding wrote sampled
  step-finished config writing info p q (Pipeline.sampling t on free) h = h
  step-finished config writing info p q (Pipeline.sending s held room) h = h
  step-finished config writing info p q (Pipeline.stopping on free) h = h
  step-finished config writing info p q (Pipeline.receiving s rest busy waits) h = h
  step-finished config writing info p q (Pipeline.flushing busy) h = h
  step-finished config writing info p q (Pipeline.finishing busy off empty) h = refl
  step-finished config writing info p q (Pipeline.others w) h = h

  step-HasStopped :
      (config : AggregationWorkerConfig) (retention_ms : _) (s t : Service F)
      → Service.Step config retention_ms s t
      → s.running ≡ false
      → t.running ≡ false
  unfolding vacuumed pruned ticked
  step-HasStopped config retention_ms s t (Service.ticking now prune_now m on) h = h
  step-HasStopped config retention_ms s t (Service.receiving n on waits) h = h
  step-HasStopped config retention_ms s t (Service.closed on empty over) h = h
  step-HasStopped config retention_ms s t (Service.stopping on) h = refl
  step-HasStopped config retention_ms s t (Service.waking sleeps) h = h
  step-HasStopped config retention_ms s t (Service.delivering sends on empty) h = h
  step-HasStopped config retention_ms s t (Service.refused sends off) h = h
  step-HasStopped config retention_ms s t (Service.saving rows) h = h
  step-HasStopped config retention_ms s t (Service.pruning now) h = h

module _ {F : Type 0} where
  IsPast-pipeline :
      (phase : Phase) (p q : Pipeline F) (aggregation : Option (Service F))
      → (p.finished ≡ true → q.finished ≡ true)
      → IsPast phase p aggregation
      → IsPast phase q aggregation
  IsPast-pipeline serving p q aggregation h past = tt
  IsPast-pipeline worker_awaited p q aggregation h past = tt
  IsPast-pipeline writer_awaited p q aggregation h past = tt
  IsPast-pipeline aggregation_awaited p q aggregation h past = h past
  IsPast-pipeline returned p q aggregation h past = (h past.0, past.1)

  IsPast-aggregation :
      (phase : Phase) (p : Pipeline F) (s t : Service F)
      → (s.running ≡ false → t.running ≡ false)
      → IsPast phase p (some s)
      → IsPast phase p (some t)
  IsPast-aggregation serving p s t h past = tt
  IsPast-aggregation worker_awaited p s t h past = tt
  IsPast-aggregation writer_awaited p s t h past = tt
  IsPast-aggregation aggregation_awaited p s t h past = past
  IsPast-aggregation returned p s t h past = (past.0, h past.1)

module _ {F C : Type 0} ⦃f : Float F⦄ ⦃env : Env F⦄ (program : Program F C) where
  abbrev pub IsReached : Pipeline F → Type 0
  IsReached p = Pipeline.Reach program.worker_config program.writer_config program.info p

  pub record IsOrderly (r : Running F) : Type 0 where
    pub reached : IsReached r.pipeline
    pub past : IsPast r.phase r.pipeline r.aggregation

  step-IsOrderly : (r s : Running F) → Step program r s → IsOrderly r → IsOrderly s
  step-IsOrderly r s (working q step may) o = record {
    reached = Pipeline.next o.reached step;
    past = IsPast-pipeline r.phase _ q r.aggregation (step-finished _ _ _ _ q step) o.past;
  }
  step-IsOrderly r s (aggregating a b held step may) o = record {
    reached = o.reached;
    past =
        IsPast-aggregation r.phase r.pipeline a b (step-HasStopped _ _ a b step)
          (subst (λ x. IsPast r.phase r.pipeline x) held o.past);
  }
  step-IsOrderly r s (server_stopped at) o = record { reached = o.reached; past = tt }
  step-IsOrderly r s (worker_joined at off) o = record { reached = o.reached; past = tt }
  step-IsOrderly r s (writer_joined at done) o = record { reached = o.reached; past = done }
  step-IsOrderly r s (aggregation_joined at over) o = record {
    reached = o.reached;
    past = (subst (λ x. IsPast x r.pipeline r.aggregation) at o.past, over);
  }

  pub Reach-IsOrderly : IsReached program.pipeline → (r : Running F) → Reach program r → IsOrderly r
  Reach-IsOrderly launched r Reach.start = record { reached = launched; past = tt }
  Reach-IsOrderly launched s (Reach.next {r = r} before step) =
      step-IsOrderly r s step (Reach-IsOrderly launched r before)

  -- The worker, the writer and the aggregation worker have ended, and nothing is left in between.
  pub record IsDrained (r : Running F) : Type 0 where
    pub stopped : r.pipeline.running ≡ false
    pub clear : in_flight r.pipeline ≡ []
    pub stored :
        map (strip program.writer_config) r.pipeline.samples
        ≡ r.pipeline.committed ++ r.pipeline.writer.buffer
    pub over : HasStopped r.aggregation

  drained :
      IsExactEnv env
      → IsReached program.pipeline
      → (r : Running F) → Reach program r
      → r.phase ≡ returned
      → IsDrained r
  drained exact launched r reach at = record {
    stopped = parts.0;
    clear = parts.1;
    stored = parts.2;
    over = past.1;
  }
    where
      orderly : IsOrderly r
      orderly = Reach-IsOrderly launched r reach

      past : (r.pipeline.finished ≡ true) × HasStopped r.aggregation
      past = subst (λ x. IsPast x r.pipeline r.aggregation) at orderly.past

      parts :
          (r.pipeline.running ≡ false)
          × (in_flight r.pipeline ≡ [])
          × (map (strip program.writer_config) r.pipeline.samples
              ≡ r.pipeline.committed ++ r.pipeline.writer.buffer)
      parts =
          finished-drained exact program.worker_config program.writer_config program.info r.pipeline
            orderly.reached past.0

module _ {F C : Type 0} ⦃f : Float F⦄ ⦃env : Env F⦄ (cron_accepts : String → Bool)
    (from_str : String → Option (AppFields F)) (new_client : C) where
  pub start_tasks-IsReached :
      (c : AppConfig F) (info : SystemInfo) (startup : Startup) (w : World F)
      → IsReached
          (start_tasks cron_accepts new_client c info startup w)
          (start_tasks cron_accepts new_client c info startup w).pipeline
  unfolding start_tasks
  start_tasks-IsReached c info startup w = Pipeline.start _ 0 _

  -- If the parsers are exact: when a program that has started, with whatever configuration file, has
  -- returned from `main`, in whatever way its tasks interleaved and whichever statements failed, the
  -- worker, the writer and the aggregation worker have ended, no snapshot is left between them, and
  -- what was sampled is what was committed, in order, but for those at the end that the writer's
  -- last flush, having failed, left in its buffer.
  pub returned-IsDrained :
      IsExactEnv env
      → (startup : Startup) (disk : Disk F) (program : Program F C) (r : Running F)
      → start cron_accepts new_client from_str startup disk ≡ ok program
      → Reach program r
      → r.phase ≡ returned
      → IsDrained program r
  returned-IsDrained exact startup disk program r started =
      drained program exact
        (Yields-ok (λ p. IsReached p p.pipeline) _ program started
          (start-Yields cron_accepts from_str new_client _ startup disk
            (λ c info w _ _. start_tasks-IsReached c info startup w)))
        r
