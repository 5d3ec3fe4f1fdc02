-- ===== src/AggregationWorker/Service/Counts.antt =====
-- How often the task of src/aggregation_worker.rs runs VACUUM.
use homeserver_rust.Prelude.{
  ℕ, zero, suc, ap, ◌+◌, ◌≤◌, ◌≡◌, ◌≢◌, refl, ◌∙◌, Bool, true, false, String, Option, none, some,
  arith,
}
use homeserver_rust.Float.{Float}
use homeserver_rust.Config.Validate.Accepts.{IsValidSchedule}
use homeserver_rust.Config.Cron.{normalize_cron_expression}
use homeserver_rust.History.Db.{Env, World}
use homeserver_rust.AggregationWorker.{AggregationWorkerConfig}
use homeserver_rust.AggregationWorker.Service.{
  Scheduler, sleeping, ended, vacuum_scheduler, Service, vacuumed, spawn, pruned, ticked, Step,
  ticking, receiving, closed, stopping, waking, delivering, refused, saving, pruning, Run, stay,
  then_step,
}

-- Each VACUUM answers a message, and the scheduler does not return before the worker.
pub record IsPaced {F : Type 0} (s : Service F) : Type 0 where
  pub counted : s.vacuums + s.pending ≡ s.sent
  pub bounded : s.pending ≤ 1
  pub alive : s.running ≡ true → s.scheduler ≢ ended

-- A state in which the scheduler has returned and the worker has not.
pub record IsSpinning {F : Type 0} (vacuums sent : ℕ) (s : Service F) : Type 0 where
  pub running : s.running ≡ true
  pub empty : s.pending ≡ 0
  pub over : s.scheduler ≡ ended
  pub vacuumed : s.vacuums ≡ vacuums
  pub unsent : s.sent ≡ sent

vacuum_scheduler-sleeping :
    (cron_accepts : String → Bool) (schedule : Option String) (interval : ℕ)
    → IsValidSchedule cron_accepts schedule interval
    → vacuum_scheduler cron_accepts schedule ≡ sleeping
unfolding vacuum_scheduler
vacuum_scheduler-sleeping cron_accepts none interval h = refl
vacuum_scheduler-sleeping cron_accepts (some cron_str) interval h = rw h refl

ended_by :
    (cron_accepts : String → Bool) (schedule : String)
    → cron_accepts (normalize_cron_expression schedule) ≡ false
    → vacuum_scheduler cron_accepts (some schedule) ≡ ended
unfolding vacuum_scheduler
ended_by cron_accepts schedule h = rw h refl

sleeping-ne-ended : (s : Scheduler) → s ≡ sleeping → s ≢ ended
sleeping-ne-ended s h e = ground (arith, h, e)

module _ {F : Type 0} ⦃f : Float F⦄ ⦃env : Env F⦄ (config : AggregationWorkerConfig)
    (retention_ms : ℕ) where
  step-IsPaced : (s t : Service F) → Step config retention_ms s t → IsPaced s → IsPaced t
  unfolding vacuumed pruned ticked
  step-IsPaced s t (ticking now prune_now m running) p = record {
    counted = p.counted;
    bounded = p.bounded;
    alive = p.alive;
  }
  step-IsPaced s t (receiving n running waits) p = record {
    counted = omega (arith, p.counted, waits);
    bounded = omega (arith, p.bounded, waits);
    alive = p.alive;
  }
  step-IsPaced s t (closed running empty over) p = absurd (p.alive running over)
  step-IsPaced s t (stopping running) p = record {
    counted = p.counted;
    bounded = p.bounded;
    alive = λ h. cc;
  }
  step-IsPaced s t (waking sleeps) p = record {
    counted = p.counted;
    bounded = p.bounded;
    alive = λ h e. cc;
  }
  step-IsPaced s t (delivering sends running empty) p = record {
    counted = omega (arith, p.counted, empty);
    bounded = omega arith;
    alive = λ h e. cc;
  }
  step-IsPaced s t (refused sends stopped) p = record {
    counted = p.counted;
    bounded = p.bounded;
    alive = λ h. cc;
  }
  step-IsPaced s t (saving rows) p = record {
    counted = p.counted;
    bounded = p.bounded;
    alive = p.alive;
  }
  step-IsPaced s t (pruning now) p = record {
    counted = p.counted;
    bounded = p.bounded;
    alive = p.alive;
  }

  Run-IsPaced : (s t : Service F) → Run config retention_ms s t → IsPaced s → IsPaced t
  Run-IsPaced s t stay p = p
  Run-IsPaced s t (then_step {t = u} run step) p = step-IsPaced u t step (Run-IsPaced s u run p)

  -- With a schedule that `validate` accepts, in every state that the service can reach: each VACUUM
  -- answers a message of the scheduler, at most one message waits, and the scheduler does not return
  -- while the worker runs.
  pub spawn-IsPaced :
      (cron_accepts : String → Bool) (w : World F) (s : Service F)
      → IsValidSchedule cron_accepts config.vacuum_schedule config.vacuum_interval_secs
      → Run config retention_ms (spawn cron_accepts config w) s
      → IsPaced s
  unfolding spawn
  spawn-IsPaced cron_accepts w s valid run = Run-IsPaced _ s run (record {
    counted = refl;
    bounded = omega arith;
    alive = λ _. sleeping-ne-ended _ (vacuum_scheduler-sleeping cron_accepts _ _ valid);
  })

  spins :
      (n sent : ℕ) (s : Service F)
      → IsSpinning 0 sent s
      → (t : Service F) × Run config retention_ms s t × IsSpinning n sent t
  unfolding vacuumed
  spins zero sent s i = (s, stay, i)
  spins (suc n) sent s i =
      let (t, run, j) = spins n sent s i in
      (
        vacuumed t,
        then_step run (closed j.running j.empty j.over),
        record {
          running = j.running;
          empty = j.empty;
          over = j.over;
          vacuumed = ap suc j.vacuumed;
          unsent = j.unsent;
        },
      )

  -- With a schedule that the crate `cron` refuses, for every number n the service has a run in which
  -- it does n VACUUMs although no message is ever sent, and after which it can go on in the same way.
  pub spawn-spins :
      (cron_accepts : String → Bool) (schedule : String) (w : World F) (n : ℕ)
      → config.vacuum_schedule ≡ some schedule
      → cron_accepts (normalize_cron_expression schedule) ≡ false
      → (t : Service F) × Run config retention_ms (spawn cron_accepts config w) t × IsSpinning n 0 t
  unfolding spawn
  spawn-spins cron_accepts schedule w n given rejected = spins n 0 _ (record {
    running = refl;
    empty = refl;
    over = ap (vacuum_scheduler cron_accepts) given ∙ ended_by cron_accepts schedule rejected;
    vacuumed = refl;
    unsent = refl;
  })
