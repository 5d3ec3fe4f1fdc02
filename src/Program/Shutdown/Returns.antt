-- ===== src/Program/Shutdown/Returns.antt =====
-- `main` of src/main.rs can always come to its return.
use homeserver_rust.Prelude.{
  ℕ, zero, suc, ◌+◌, ◌≤◌, ◌≡◌, refl, Bool, true, false, String, List, Option, none, some, arith,
  Bool-cases, inl, inr,
}
use homeserver_rust.Prelude.Result.{ok, Yields-ok}
use homeserver_rust.Float.{Float}
use homeserver_rust.Models.{FullSystemSnapshot}
use homeserver_rust.Config.Load.{AppFields}
use homeserver_rust.History.Db.{Env, IsExactEnv}
use homeserver_rust.AggregationWorker.Service.{Service}
use homeserver_rust.AggregationWorker.Service
use homeserver_rust.Worker.HistoryWriter.{writer_channel_capacity}
use homeserver_rust.Worker.Pipeline.{Pipeline}
use homeserver_rust.Worker.Pipeline
use homeserver_rust.Worker.Pipeline.Conserves.{finished-drained}
use homeserver_rust.Worker.Pipeline.Shutdown.{Ends, shutdown-Ends}
use homeserver_rust.Program.{Startup, Disk, Program, start}
use homeserver_rust.Program.Starts.{start-Yields}
use homeserver_rust.Program.Shutdown.{
  Phase, serving, worker_awaited, writer_awaited, aggregation_awaited, returned, Running, MayStop,
  Step, working, aggregating, server_stopped, worker_joined, writer_joined, aggregation_joined,
  Reach,
}
use homeserver_rust.Program.Shutdown.Drains.{
  IsReached, IsOrderly, Reach-IsOrderly, start_tasks-IsReached,
}

abbrev at : {F : Type 0} → Phase → Pipeline F → Option (Service F) → Running F
at phase p aggregation = record { phase = phase; pipeline = p; aggregation = aggregation }

module _ {F C : Type 0} ⦃f : Float F⦄ ⦃env : Env F⦄ (program : Program F C) where
  -- A number of steps one after the other.
  pub data Steps : ℕ → Running F → Running F → Type 0 where
    stay : {r : Running F} → Steps zero r r
    then_step : {n : ℕ} {r s t : Running F} → Step program r s → Steps n s t → Steps (suc n) r t

  -- `main` returns within this many steps, and these have then been sampled.
  abbrev pub Returns : ℕ → List (FullSystemSnapshot F) → Running F → Type 0
  Returns n samples r =
      (k : ℕ) × (s : Running F) × Steps k r s
      × (k ≤ n)
      × (s.phase ≡ returned)
      × (s.pipeline.samples ≡ samples)

  module _ (samples : List (FullSystemSnapshot F)) where
    Returns-before :
        (n : ℕ) (r s : Running F)
        → Step program r s
        → Returns n samples s
        → Returns (suc n) samples r
    Returns-before n r s step (k, t, steps, few, done, alike) =
        (suc k, t, then_step step steps, omega (arith, few), done, alike)

    Returns-more : (m n : ℕ) (r : Running F) → m ≤ n → Returns m samples r → Returns n samples r
    Returns-more m n r h (k, s, steps, few, done, alike) =
        (k, s, steps, omega (arith, h, few), done, alike)

    -- The steps of the pipeline are steps of the program once its shutdown is sent.
    Returns-after :
        (phase : Phase) (aggregation : Option (Service F)) (n k : ℕ) (p q : Pipeline F)
        → ((before after : Bool) → MayStop phase before after)
        → Pipeline.Steps program.worker_config program.writer_config program.info k p q
        → Returns n samples (at phase q aggregation)
        → Returns (k + n) samples (at phase p aggregation)
    Returns-after phase aggregation n zero p q may Pipeline.stay end =
        Returns-more n _ _ (omega arith) end
    Returns-after phase aggregation n (suc m) p q may (Pipeline.then_step {q = p'} step steps) end =
        Returns-more (suc (m + n)) _ _ (omega arith) (
          Returns-before (m + n) _ (at phase p' aggregation) (working p' step (may _ _))
            (Returns-after phase aggregation n m p' q may steps end))

    return-Returns :
        (p : Pipeline F) (aggregation : Option (Service F))
        → p.samples ≡ samples
        → Returns 0 samples (at returned p aggregation)
    return-Returns p aggregation same = (0, _, stay, omega arith, refl, same)

    -- The aggregation worker, if there is one, stops.
    last-Returns :
        (p : Pipeline F) (aggregation : Option (Service F))
        → p.samples ≡ samples
        → Returns 2 samples (at aggregation_awaited p aggregation)
    last-Returns p none same =
        Returns-more 1 2 _ (omega arith)
          (Returns-before 0 _ _ (aggregation_joined refl tt) (return-Returns p none same))
    last-Returns p (some s) same = elim (Bool-cases s.running) [
      | inl on ↦
          Returns-before 1 _ (at aggregation_awaited p (some off))
            (aggregating s off refl (Service.stopping on) tt)
            (Returns-before 0 _ _ (aggregation_joined refl refl) (return-Returns p (some off) same))
      | inr over ↦
          Returns-more 1 2 _ (omega arith)
            (Returns-before 0 _ _ (aggregation_joined refl over) (return-Returns p (some s) same))
    ]
      where
        off : Service F
        off = record s { running = false }

    writer-Returns :
        (p : Pipeline F) (aggregation : Option (Service F))
        → p.finished ≡ true
        → p.samples ≡ samples
        → Returns 3 samples (at writer_awaited p aggregation)
    writer-Returns p aggregation done same =
        Returns-before 2 _ _ (writer_joined refl done) (last-Returns p aggregation same)

  Reach-Steps :
      (k : ℕ) (p q : Pipeline F)
      → IsReached program p
      → Pipeline.Steps program.worker_config program.writer_config program.info k p q
      → IsReached program q
  Reach-Steps zero p q reached Pipeline.stay = reached
  Reach-Steps (suc m) p q reached (Pipeline.then_step {q = p'} step steps) =
      Reach-Steps m p' q (Pipeline.next reached step) steps

  abbrev pub bound : ℕ
  bound = 9 + writer_channel_capacity program.writer_config.flush_rate

  Ended : Pipeline F → Type 0
  Ended p =
      Ends program.worker_config program.writer_config program.info
        (4 + writer_channel_capacity program.writer_config.flush_rate) p

  module _ (exact : IsExactEnv env) where
    off : (q : Pipeline F) → IsReached program q → q.finished ≡ true → q.running ≡ false
    off q reached done =
        (finished-drained exact program.worker_config program.writer_config program.info q reached
          done).0

    joined-Returns :
        (p : Pipeline F) (aggregation : Option (Service F))
        → IsReached program p
        → Ended p
        → Returns
            (8 + writer_channel_capacity program.writer_config.flush_rate)
            p.samples
            (at worker_awaited p aggregation)
    unfolding Ended
    joined-Returns p aggregation reached (k, q, steps, few, done, same) =
        Returns-more p.samples (k + 4) _ _ (omega (arith, few)) (
          Returns-after p.samples worker_awaited aggregation 4 k p q (λ _ _. tt) steps
            (Returns-before p.samples 3 _ (at writer_awaited q aggregation)
              (worker_joined refl (off q (Reach-Steps k p q reached steps) done))
              (writer-Returns p.samples q aggregation done same)))

    awaited-Returns :
        (p : Pipeline F) (aggregation : Option (Service F))
        → IsReached program p
        → Ended p
        → Returns bound p.samples (at writer_awaited p aggregation)
    unfolding Ended
    awaited-Returns p aggregation reached (k, q, steps, few, done, same) =
        Returns-more p.samples (k + 3) _ _ (omega (arith, few)) (
          Returns-after p.samples writer_awaited aggregation 3 k p q (λ _ _. tt) steps
            (writer-Returns p.samples q aggregation done same))

    at-Returns :
        (phase : Phase) (p : Pipeline F) (aggregation : Option (Service F))
        → IsReached program p
        → Ended p
        → Returns bound p.samples (at phase p aggregation)
    at-Returns serving p aggregation reached ended =
        Returns-more p.samples (suc (8 + writer_channel_capacity program.writer_config.flush_rate))
          _ _ (omega arith)
          (Returns-before p.samples _ _ (at worker_awaited p aggregation) (server_stopped refl)
            (joined-Returns p aggregation reached ended))
    at-Returns worker_awaited p aggregation reached ended =
        Returns-more p.samples _ _ _ (omega arith) (joined-Returns p aggregation reached ended)
    at-Returns writer_awaited p aggregation reached ended =
        awaited-Returns p aggregation reached ended
    at-Returns aggregation_awaited p aggregation reached ended =
        Returns-more p.samples 2 _ _ (omega arith) (last-Returns p.samples p aggregation refl)
    at-Returns returned p aggregation reached ended =
        Returns-more p.samples 0 _ _ (omega arith) (return-Returns p.samples p aggregation refl)

    orderly-Returns : (r : Running F) → IsOrderly program r → Returns bound r.pipeline.samples r
    unfolding Ended
    orderly-Returns r orderly = at-Returns r.phase r.pipeline r.aggregation orderly.reached (
        shutdown-Ends program.worker_config program.writer_config program.info exact r.pipeline
          orderly.reached)

module _ {F C : Type 0} ⦃f : Float F⦄ ⦃env : Env F⦄ (cron_accepts : String → Bool)
    (from_str : String → Option (AppFields F)) (new_client : C) where
  -- If the parsers are exact: from every state that a started program can come to, however its tasks
  -- interleaved and whichever statements failed, `main` has a way to its return that takes no
  -- further sample, of at most nine steps and one for each place of the writer's channel.
  pub main-Returns :
      IsExactEnv env
      → (startup : Startup) (disk : Disk F) (program : Program F C) (r : Running F)
      → start cron_accepts new_client from_str startup disk ≡ ok program
      → Reach program r
      → Returns program (bound program) r.pipeline.samples r
  main-Returns exact startup disk program r started reach = orderly-Returns program exact r (
      Reach-IsOrderly program
        (Yields-ok (λ p. IsReached p p.pipeline) _ program started
          (start-Yields cron_accepts from_str new_client _ startup disk (λ c info w _ _.
            start_tasks-IsReached cron_accepts from_str new_client c info startup w)))
        r reach)
