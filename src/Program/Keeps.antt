-- ===== src/Program/Keeps.antt =====
-- From the start of src/main.rs on, no snapshot in the database is lost before its time.
use homeserver_rust.Prelude.{
  ℕ, ◌≡◌, refl, sym, ap, subst, ◌⊎◌, inl, inr, Bool, true, false, String, List, Option, some, Any,
}
use homeserver_rust.Prelude.Result.{Result, ok, err, Yields, Yields-ok}
use homeserver_rust.Float.{Float}
use homeserver_rust.Models.{SystemInfo}
use homeserver_rust.Config.{AppConfig}
use homeserver_rust.Config.Load.{AppFields}
use homeserver_rust.History.Db.{
  RawRow, AggRow, Env, IsOrdering, World, Exec, DbError, pure, continue,
}
use homeserver_rust.History.Db
use homeserver_rust.History.Schema.{Store}
use homeserver_rust.History.Schema
use homeserver_rust.History.Schema.Keeps.{Supported, Upgraded, database, init-Upgraded}
use homeserver_rust.AggregationWorker.{run_backfill}
use homeserver_rust.AggregationWorker.NoLoss.{IsKept}
use homeserver_rust.AggregationWorker.NoLoss.Pass.{IsExpired, run_one_tick-IsKept}
use homeserver_rust.AggregationWorker.Service.{Service, spawn, Run}
use homeserver_rust.AggregationWorker.Service.Keeps.{IsAccounted, Run-IsAccounted}
use homeserver_rust.Program.Starts.{some-inj, start-Yields}
use homeserver_rust.Program.{
  Startup, Disk, Program, lefts, rows_of, opened, open_history, aggregation_config_of, retention_of,
  start_aggregation, start_tasks, start,
}

continue-pure-world :
    {F : Type 0} (r : Result DbError (Unit {0}) × World F)
    → (continue r.0 (λ _. pure tt) r.1).1 ≡ r.1
unfolding pure
continue-pure-world (ok u, w) = refl
continue-pure-world (err e, w) = refl

-- `?` and `Ok(())` leave the world as it is.
bind_pure-world :
    {F : Type 0} (m : Exec F (Unit {0})) (w : World F) → (Db.◌>>=◌ m (λ _. pure tt) w).1 ≡ (m w).1
unfolding Db.◌>>=◌
bind_pure-world m w = continue-pure-world (m w)

module _ {F : Type 0} where
  opened-Yields :
      (v : ℕ) (raws aggs : List (RawRow F ⊎ AggRow F)) (startup : Startup) (disk : Disk F)
      (after : Result (Unit {0}) (Unit {0}) × (Store (RawRow F ⊎ AggRow F) × List Bool))
      → Upgraded raws aggs v after
      → Yields (λ o. o.db.raw ≡ lefts raws) (opened startup disk after)
  opened-Yields v raws aggs startup disk (ok u, (s, more)) up =
      ap (λ x. lefts (rows_of x.history)) up
  opened-Yields v raws aggs startup disk (err e, after) up = tt

  -- A database of a supported version is opened with its raw rows.
  open_history-Yields :
      (v : ℕ) (raws aggs : List (RawRow F ⊎ AggRow F)) (startup : Startup) (disk : Disk F)
      → Supported v
      → disk.store ≡ database raws aggs v
      → Yields (λ o. o.db.raw ≡ lefts raws) (open_history startup disk)
  unfolding open_history
  open_history-Yields v raws aggs startup disk supported stored =
      opened-Yields v raws aggs startup disk _ (
        subst (λ x. Upgraded raws aggs v (Schema.init (x, disk.init_faults))) (sym stored)
          (init-Upgraded raws aggs v supported disk.init_faults))

module _ {F : Type 0} (r : RawRow F) where
  -- The row is kept, or had expired at the prune that ends the backfill or at one of the run.
  abbrev pub IsAccountedSince : Startup → AppConfig F → Service F → Type 0
  IsAccountedSince startup c t =
      IsAccounted (retention_of c) r t ⊎ IsExpired (retention_of c) startup.backfill_prune_now r

module _ {F : Type 0} ⦃f : Float F⦄ ⦃env : Env F⦄ (ordering : IsOrdering env)
    (cron_accepts : String → Bool) (r : RawRow F) where
  start_aggregation-keeps :
      (enabled : Bool) (c : AppConfig F) (startup : Startup) (w : World F) (s t : Service F)
      → Any (λ x. x ≡ r) w.db.raw
      → (start_aggregation cron_accepts enabled c startup w).1 ≡ some s
      → Run (aggregation_config_of c) (retention_of c) s t
      → IsAccountedSince r startup c t
  unfolding start_aggregation run_backfill spawn
  start_aggregation-keeps false c startup w s t here h run = cc
  start_aggregation-keeps true c startup w s t here h run =
      elim (run_one_tick-IsKept ordering (retention_of c) startup.backfill_prune_now r
        (aggregation_config_of c) startup.backfill_now w (inl here)) [
          | inr expired ↦ inr expired
          | inl kept ↦ inl (
              Run-IsAccounted ordering (aggregation_config_of c) (retention_of c) r s t run (
                subst (λ x. IsAccounted (retention_of c) r x) (some-inj _ s h)
                  (inl (subst (λ x. IsKept r x.db) (sym (bind_pure-world _ w)) kept))))
        ]

  module _ (from_str : String → Option (AppFields F)) {C : Type 0} (new_client : C) where
    abbrev StaysAccounted : Startup → Program F C → Type 0
    StaysAccounted startup p =
        (s t : Service F)
        → p.aggregation ≡ some s
        → Run (aggregation_config_of p.app_config) (retention_of p.app_config) s t
        → IsAccountedSince r startup p.app_config t

    start_tasks-StaysAccounted :
        (c : AppConfig F) (info : SystemInfo) (startup : Startup) (w : World F)
        → Any (λ x. x ≡ r) w.db.raw
        → StaysAccounted startup (start_tasks cron_accepts new_client c info startup w)
    unfolding start_tasks
    start_tasks-StaysAccounted c info startup w here s t =
        start_aggregation-keeps c.database.enable_aggregation c startup w s t here

    -- If ORDER BY sorts and loses no row: when the program has started, with whatever configuration
    -- file, on a database of version 2, 3, 4 or 5 that holds a raw row, and runs the aggregation
    -- worker, then in every state that the worker reaches among the other tasks, whichever
    -- statements fail, the row is still there, or a row of its minute or of its five minutes stands
    -- for it, or it had expired at the prune that ends the backfill or at a prune of the run.
    pub start-keeps :
        (v : ℕ) (raws aggs : List (RawRow F ⊎ AggRow F)) (startup : Startup) (disk : Disk F)
        (p : Program F C) (s t : Service F)
        → Supported v
        → disk.store ≡ database raws aggs v
        → Any (λ x. x ≡ r) (lefts raws)
        → start cron_accepts new_client from_str startup disk ≡ ok p
        → p.aggregation ≡ some s
        → Run (aggregation_config_of p.app_config) (retention_of p.app_config) s t
        → IsAccountedSince r startup p.app_config t
    start-keeps v raws aggs startup disk p s t supported stored here started =
        Yields-ok (StaysAccounted startup) _ p started
          (start-Yields cron_accepts from_str new_client (StaysAccounted startup) startup disk
            (λ c info w _ inited. start_tasks-StaysAccounted c info startup w (
              subst (Any (λ x. x ≡ r))
                (sym (
                  Yields-ok (λ o. o.db.raw ≡ lefts raws) (open_history startup disk) w inited
                    (open_history-Yields v raws aggs startup disk supported stored)))
                here)))
          s t
