-- ===== src/Tests/Start.antt =====
-- A start of the program and the way to its return, with the theorems at them.
use homeserver_rust.Prelude.{
  ℕ, ◌≡◌, refl, true, false, String, List, [], ◌∷◌, none, some, ◌⊎◌, inl, inr,
}
use homeserver_rust.Prelude.Int.{pos}
use homeserver_rust.Prelude.Result.{ok, err}
use homeserver_rust.History.Schema.{
  migration_from, add_column, apply_alter, update_version, migrate, drop_history_user_tables,
  atomic, ◌⨟◌, purge, run_migrations, mark_new, ensure_from, ensure_schema_version, init,
}
use homeserver_rust.History.Schema.Keeps.{database}
use homeserver_rust.Config.Validate.{
  validate_server, validate_limits, validate_vacuum, validate_aggregation, validate_intervals,
  validate_rules,
}
use homeserver_rust.Config.Load.{app_of}
use homeserver_rust.AggregationWorker.Service.{
  sending, Service, spawn, ticked, pruned, Run, stay, then_step, ticking, pruning, waking,
}
use homeserver_rust.AggregationWorker.Service.Counts.{IsPaced}
use homeserver_rust.Program.{
  Startup, StartError, Disk, Program, open_history, aggregation_config_of, retention_of,
  start_aggregation, start_tasks, start,
}
use homeserver_rust.Program.Keeps.{IsAccountedSince, start-keeps}
use homeserver_rust.Program.Starts.{start-IsPaced}
use homeserver_rust.History.Db.{RawRow, AggRow, World}
use homeserver_rust.AggregationWorker.Service
use homeserver_rust.Worker.HistoryWriter.{flush_buffer}
use homeserver_rust.Worker.Pipeline.{Pipeline, wrote}
use homeserver_rust.Worker.Pipeline
use homeserver_rust.Program.Shutdown.{
  serving, returned, Running, working, aggregating, server_stopped, worker_joined, writer_joined,
  aggregation_joined,
}
use homeserver_rust.Program.Shutdown
use homeserver_rust.Program.Shutdown.Drains.{IsDrained, returned-IsDrained}
use homeserver_rust.Program.Shutdown.Returns.{Returns, bound, main-Returns}
use homeserver_rust.Tests.Setup.{
  nat_float, test_env, test_env-IsExactEnv, test_env-IsOrdering, host,
}
use homeserver_rust.Tests.Store.{raw_at, agg_at, world}
use homeserver_rust.Tests.Loop.{empty_world}
use homeserver_rust.Tests.Services.{cron_accepts, fields, from_str}

schema : Unit {0}
unfolding migration_from add_column apply_alter update_version migrate drop_history_user_tables
    atomic ◌⨟◌ purge run_migrations mark_new ensure_from ensure_schema_version init
schema = tt

abbrev startup : Startup
startup = record {
  config_file = none;
  read_to_string = λ path. some "[server]";
  system_info = some host;
  docker_connects = true;
  history_connects = true;
  stored_info = none;
  backfill_now = some 8_000_000;
  backfill_prune_now = some 8_000_000;
  binds = true;
}

-- The program and its service, on a database.
abbrev program : World ℕ → Program ℕ String
program w = start_tasks cron_accepts "client" (app_of fields) host startup w

abbrev service : World ℕ → Service ℕ
service w =
    spawn cron_accepts (aggregation_config_of (app_of fields))
      (start_aggregation cron_accepts true (app_of fields) startup w).0

-- The file of a database of version 4, with these rows, and what fails after `init`.
abbrev raws : List (RawRow ℕ ⊎ AggRow ℕ)
raws = inl (raw_at 1_000) ∷ inl (raw_at 2_000) ∷ inl (raw_at 7_300_000) ∷ []

abbrev aggs : List (RawRow ℕ ⊎ AggRow ℕ)
aggs = inr (agg_at 60_000 60) ∷ inr (agg_at 0 300) ∷ []

abbrev disk : Disk ℕ
disk = record { store = database raws aggs 4; init_faults = []; faults = false ∷ false ∷ true ∷ [] }

abbrev empty_disk : Disk ℕ
empty_disk = record { store = database [] [] 4; init_faults = []; faults = [] }

opens : open_history startup disk ≡ ok world
unfolding open_history schema
opens = refl

empty_opens : open_history startup empty_disk ≡ ok empty_world
unfolding open_history schema
empty_opens = refl

program_starts :
    (d : Disk ℕ) (w : World ℕ)
    → open_history startup d ≡ ok w
    → start cron_accepts "client" from_str startup d ≡ ok (program w)
unfolding start start_tasks spawn validate_server validate_limits validate_vacuum
    validate_aggregation validate_intervals validate_rules
program_starts d w h = rw h refl

-- An `init` that fails stops the start, and a database of an unknown version loses its raw rows.
init_fails : open_history startup (record disk { init_faults = true ∷ [] }) ≡ err StartError.init
unfolding open_history schema
init_fails = refl

unknown_version :
    open_history startup
      (record empty_disk { store = record (database raws aggs 4) { version = some (pos 6) } })
    ≡ ok empty_world
unfolding open_history schema
unknown_version = refl

start-IsPaced_example : IsPaced (record (service empty_world) { scheduler = sending })
unfolding start_tasks spawn app_of
start-IsPaced_example =
    start-IsPaced cron_accepts from_str "client" startup empty_disk (program empty_world)
      (service empty_world) (record (service empty_world) { scheduler = sending })
      (program_starts empty_disk empty_world empty_opens) refl (then_step stay (waking refl))

start-keeps_example :
    IsAccountedSince
      (raw_at 1_000)
      startup
      (app_of fields)
      (pruned (retention_of (app_of fields)) (some 9_000_000) (service world))
unfolding start_tasks spawn app_of pruned
start-keeps_example =
    start-keeps test_env-IsOrdering cron_accepts (raw_at 1_000) from_str "client" 4 raws aggs
      startup disk (program world) (service world)
      (pruned (retention_of (app_of fields)) (some 9_000_000) (service world))
      (inr (inr (inl refl))) refl (inl refl) (program_starts disk world opens) refl
      (then_step stay (pruning (some 9_000_000)))

-- The way of `main` from the end of the server to its return.
abbrev serving_once : Running ℕ
serving_once = record {
  phase = serving;
  pipeline = (program empty_world).pipeline;
  aggregation = some (service empty_world);
}

abbrev stopped : Pipeline ℕ
stopped = record (program empty_world).pipeline { running = false }

abbrev ended_writer : Pipeline ℕ
ended_writer =
    record (wrote stopped
      (flush_buffer (program empty_world).writer_config host stopped.writer).1) { finished = true }

abbrev after_return : Running ℕ
after_return = record {
  phase = returned;
  pipeline = ended_writer;
  aggregation = some (record (service empty_world) { running = false });
}

returns : Shutdown.Reach (program empty_world) after_return
unfolding start_tasks spawn app_of wrote flush_buffer
returns =
    Shutdown.next
      (Shutdown.next
        (Shutdown.next
          (Shutdown.next
            (Shutdown.next
              (Shutdown.next (Shutdown.next Shutdown.start (server_stopped refl))
                (working stopped (Pipeline.stopping refl refl) tt))
              (worker_joined refl refl))
            (working ended_writer (Pipeline.finishing refl refl refl) tt))
          (writer_joined refl refl))
        (aggregating (service empty_world) (record (service empty_world) { running = false }) refl
          (Service.stopping refl) tt))
      (aggregation_joined refl refl)

returned-IsDrained_example : IsDrained (program empty_world) after_return
returned-IsDrained_example =
    returned-IsDrained cron_accepts from_str "client" test_env-IsExactEnv startup empty_disk
      (program empty_world) after_return (program_starts empty_disk empty_world empty_opens) returns
      refl

main-Returns_example : Returns (program empty_world) (bound (program empty_world)) [] serving_once
unfolding start_tasks spawn app_of
main-Returns_example =
    main-Returns cron_accepts from_str "client" test_env-IsExactEnv startup empty_disk
      (program empty_world) serving_once (program_starts empty_disk empty_world empty_opens)
      Shutdown.start
