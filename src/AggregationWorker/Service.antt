-- ===== src/AggregationWorker/Service.antt =====
-- The task of src/aggregation_worker.rs and its VACUUM scheduler, and the statements of the other
-- tasks between theirs, as one state with a step relation: timers and `select!` may take any branch.
pub mod Keeps
pub mod Counts
use homeserver_rust.Prelude.{
  ℕ, suc, Bool, true, false, ◌≡◌, List, [], ◌∷◌, ◌++◌, map, String, Option, none, some,
  if◌then◌else◌,
}
use homeserver_rust.Float.{Float}
use homeserver_rust.Config.Cron.{normalize_cron_expression}
use homeserver_rust.History.Db.{RawRow, Env, Exec, World, touch}
use homeserver_rust.History.Raw.{prune_old_data}
use homeserver_rust.AggregationWorker.{AggregationWorkerConfig}
use homeserver_rust.AggregationWorker.Among.{Meanwhile, pass}

-- Where `vacuum_scheduler` is: in a `sleep`, in `tx.send(())`, or returned, its sender dropped.
pub data Scheduler : Type 0 where
  sleeping sending ended : Scheduler

-- The start of `vacuum_scheduler`: a schedule that the crate `cron` refuses ends it.
unfoldable pub vacuum_scheduler : (String → Bool) → Option String → Scheduler
unfolding normalize_cron_expression
vacuum_scheduler cron_accepts none = sleeping
vacuum_scheduler cron_accepts (some cron_str) =
    if cron_accepts (normalize_cron_expression cron_str) then sleeping else ended

-- A prune by its reading of the clock: at the end of a pass, or by the sampling worker.
pub data Prune : Type 0 where
  of_pass of_worker : Option ℕ → Prune

-- `pending` counts the messages in the channel, whose capacity is 1. The last three fields only
-- record what has happened: the messages sent, the VACUUMs, and the prunes, the newest first.
pub record Service (F : Type 0) : Type 0 where
  pub world : World F
  pub running : Bool
  pub scheduler : Scheduler
  pub pending : ℕ
  pub sent : ℕ
  pub vacuums : ℕ
  pub prunes : List Prune

module _ {F : Type 0} where
  -- `VACUUM` changes no row.
  unfoldable pub vacuum : Exec F (Unit {0})
  unfolding touch
  vacuum = touch

  -- The branch of `vacuum_rx.recv()`, whatever it gave; an error is only logged.
  unfoldable pub vacuumed : Service F → Service F
  unfolding vacuum
  vacuumed s = record s { world = (vacuum s.world).1; vacuums = suc s.vacuums }

  unfoldable pub spawn : (String → Bool) → AggregationWorkerConfig → World F → Service F
  unfolding vacuum_scheduler
  spawn cron_accepts config w = record {
    world = w;
    running = true;
    scheduler = vacuum_scheduler cron_accepts config.vacuum_schedule;
    pending = 0;
    sent = 0;
    vacuums = 0;
    prunes = [];
  }

  -- `repo.prune_old_data()` of the sampling worker.
  unfoldable pub pruned : ℕ → Option ℕ → Service F → Service F
  pruned retention_ms now s = record s {
    world = (prune_old_data retention_ms now s.world).1;
    prunes = of_worker now ∷ s.prunes;
  }

module _ {F : Type 0} ⦃f : Float F⦄ ⦃env : Env F⦄ (config : AggregationWorkerConfig)
    (retention_ms : ℕ) where
  -- The branch of `agg_interval.tick()`, in which the other tasks go on at each `.await` of the pass;
  -- an error of the pass is only logged.
  unfoldable pub ticked : Option ℕ → Option ℕ → Meanwhile F → Service F → Service F
  unfolding pass
  ticked now prune_now m s = record s {
    world = (pass retention_ms m config now prune_now s.world).1;
    prunes = of_pass prune_now ∷ map of_worker m.clocks ++ s.prunes;
  }

  pub data Step : Service F → Service F → Type 0 where
    ticking :
        {s : Service F}
        → (now prune_now : Option ℕ) → (m : Meanwhile F) → s.running ≡ true
        → Step s (ticked now prune_now m s)
    -- `recv()` gives a message, or `None` once the sender is dropped and the channel empty.
    receiving :
        {s : Service F}
        → (n : ℕ) → s.running ≡ true
        → s.pending ≡ suc n
        → Step s (vacuumed (record s { pending = n }))
    closed :
        {s : Service F}
        → s.running ≡ true
        → s.pending ≡ 0
        → s.scheduler ≡ ended
        → Step s (vacuumed s)
    stopping : {s : Service F} → s.running ≡ true → Step s (record s { running = false })
    -- The scheduler. A cron schedule without a next time sleeps on, which changes nothing.
    waking : {s : Service F} → s.scheduler ≡ sleeping → Step s (record s { scheduler = sending })
    delivering :
        {s : Service F}
        → s.scheduler ≡ sending
        → s.running ≡ true
        → s.pending ≡ 0
        → Step s (record s { scheduler = sleeping; pending = 1; sent = suc s.sent })
    refused :
        {s : Service F}
        → s.scheduler ≡ sending
        → s.running ≡ false
        → Step s (record s { scheduler = ended })
    -- The other tasks between the passes: the writer commits rows, and the sampling worker prunes.
    saving :
        {s : Service F}
        → (rows : List (RawRow F))
        → Step s (record s {
          world = record s.world { db = record s.world.db { raw = s.world.db.raw ++ rows } };
        })
    pruning : {s : Service F} → (now : Option ℕ) → Step s (pruned retention_ms now s)

  -- The service after steps, from one state to another.
  pub data Run : Service F → Service F → Type 0 where
    stay : {s : Service F} → Run s s
    then_step : {s t u : Service F} → Run s t → Step t u → Run s u
