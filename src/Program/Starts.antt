-- ===== src/Program/Starts.antt =====
-- What holds of a program that src/main.rs has started, from the configuration that it loaded.
use homeserver_rust.Prelude.{◌≡◌, sym, subst, Bool, true, false, arith, String, Option, some}
use homeserver_rust.Prelude.Result.{Result, ok, err, ensure, IsOk, Yields, Yields-bind, Yields-ok}
use homeserver_rust.Float.{Float}
use homeserver_rust.Models.{SystemInfo}
use homeserver_rust.Config.{AppConfig}
use homeserver_rust.Config.Validate.{validate}
use homeserver_rust.Config.Validate.Accepts.{IsValidSchedule, validate_iff}
use homeserver_rust.Config.Load.{
  AppFields, LoadError, io, toml, invalid, or_fail, map_err, config_path, app_of, load_from_str,
  load,
}
use homeserver_rust.History.Db.{Env, World}
use homeserver_rust.AggregationWorker.Service.{Service, Run}
use homeserver_rust.AggregationWorker.Service.Counts.{IsPaced, spawn-IsPaced}
use homeserver_rust.Program.{
  Startup, StartError, docker, connect, bind, Disk, open_history, Program, aggregation_config_of,
  retention_of, start_aggregation, start_tasks, start,
}

map_err-IsOk : {D E A : Type 0} (f : D → E) (r : Result D A) (a : A) → map_err f r ≡ ok a → IsOk r
map_err-IsOk f (ok b) a h = tt
map_err-IsOk f (err d) a h = cc

map_err-ok : {D E A : Type 0} (f : D → E) (r : Result D A) (a : A) → map_err f r ≡ ok a → r ≡ ok a
map_err-ok f (ok b) a h = ground (arith, h)
map_err-ok f (err d) a h = cc

module _ {F : Type 0} (cron_accepts : String → Bool)
    (from_str : String → Option (AppFields F)) where
  abbrev IsAccepted : AppConfig F → Type 0
  IsAccepted c = IsOk (validate cron_accepts c)

  -- A configuration that is loaded has been accepted.
  load-Yields :
      (var : Option String) (read : String → Option String)
      → Yields IsAccepted (load cron_accepts from_str var read)
  unfolding load load_from_str
  load-Yields var read = Yields-bind IsAccepted (or_fail io (read (config_path var))) _ (λ s _.
      Yields-bind IsAccepted (or_fail toml (from_str s)) _ (λ fields _.
        Yields-bind IsAccepted (map_err invalid (validate cron_accepts (app_of fields))) _
          (λ u accepted. map_err-IsOk invalid _ u accepted)))

pub some-inj : {A : Type 0} (a b : A) → Option.some a ≡ some b → a ≡ b
some-inj a b h = cc

module _ {F : Type 0} ⦃f : Float F⦄ ⦃env : Env F⦄ (cron_accepts : String → Bool)
    (from_str : String → Option (AppFields F)) {C : Type 0} (new_client : C) where
  -- What holds of the tasks for each configuration that is loaded holds of a program that starts.
  pub start-Yields :
      (P : Program F C → Type 0) (startup : Startup) (disk : Disk F)
      → ((c : AppConfig F) (info : SystemInfo) (w : World F)
          → load cron_accepts from_str startup.config_file startup.read_to_string ≡ ok c
          → open_history startup disk ≡ ok w
          → P (start_tasks cron_accepts new_client c info startup w))
      → Yields P (start cron_accepts new_client from_str startup disk)
  unfolding start
  start-Yields P startup disk h =
      Yields-bind P (map_err StartError.config (loaded startup)) _ (λ c read.
        Yields-bind P (or_fail StartError.system_info startup.system_info) _ (λ info _.
          Yields-bind P (ensure startup.docker_connects docker) _ (λ _ _.
            Yields-bind P (ensure startup.history_connects connect) _ (λ _ _.
              Yields-bind P (open_history startup disk) _ (λ w inited.
                Yields-bind P (ensure startup.binds bind) _ (λ _ _.
                  h c info w (map_err-ok StartError.config (loaded startup) c read) inited))))))
    where
      loaded : Startup → Result LoadError (AppConfig F)
      loaded u = load cron_accepts from_str u.config_file u.read_to_string

module _ {F : Type 0} ⦃f : Float F⦄ ⦃env : Env F⦄ (cron_accepts : String → Bool)
    (from_str : String → Option (AppFields F)) {C : Type 0} (new_client : C) where
  -- The service of this program, if it has one, is paced in every state that it reaches.
  abbrev pub StaysPaced : Program F C → Type 0
  StaysPaced p =
      (s t : Service F)
      → p.aggregation ≡ some s
      → Run (aggregation_config_of p.app_config) (retention_of p.app_config) s t
      → IsPaced t

  start_aggregation-IsPaced :
      (enabled : Bool) (c : AppConfig F) (startup : Startup) (w : World F) (s t : Service F)
      → IsOk (validate cron_accepts c)
      → (start_aggregation cron_accepts enabled c startup w).1 ≡ some s
      → Run (aggregation_config_of c) (retention_of c) s t
      → IsPaced t
  unfolding start_aggregation aggregation_config_of
  start_aggregation-IsPaced false c startup w s t accepted h run = cc
  start_aggregation-IsPaced true c startup w s t accepted h run =
      spawn-IsPaced (aggregation_config_of c) (retention_of c) cron_accepts _ t schedule
        (subst (λ x. Run (aggregation_config_of c) (retention_of c) x t) (sym (some-inj _ s h)) run)
    where
      schedule :
          IsValidSchedule cron_accepts
            (aggregation_config_of c).vacuum_schedule
            (aggregation_config_of c).vacuum_interval_secs
      schedule = ((validate_iff cron_accepts c).0 accepted).schedule

  start_tasks-StaysPaced :
      (c : AppConfig F) (info : SystemInfo) (startup : Startup) (w : World F)
      → IsOk (validate cron_accepts c)
      → StaysPaced (start_tasks cron_accepts new_client c info startup w)
  unfolding start_tasks
  start_tasks-StaysPaced c info startup w accepted s t =
      start_aggregation-IsPaced c.database.enable_aggregation c startup w s t accepted

  start-StaysPaced :
      (startup : Startup) (disk : Disk F)
      → Yields StaysPaced (start cron_accepts new_client from_str startup disk)
  start-StaysPaced startup disk =
      start-Yields cron_accepts from_str new_client StaysPaced startup disk (λ c info w loaded _.
        start_tasks-StaysPaced c info startup w (
          Yields-ok (IsAccepted cron_accepts from_str) _ c loaded
            (load-Yields cron_accepts from_str startup.config_file startup.read_to_string)))

  -- If the program has started, with whatever configuration file, and runs the aggregation worker:
  -- in every state that the worker and its scheduler reach, each VACUUM answers a message of the
  -- scheduler, at most one message waits, and the scheduler does not return while the worker runs.
  pub start-IsPaced :
      (startup : Startup) (disk : Disk F) (p : Program F C) (s t : Service F)
      → start cron_accepts new_client from_str startup disk ≡ ok p
      → p.aggregation ≡ some s
      → Run (aggregation_config_of p.app_config) (retention_of p.app_config) s t
      → IsPaced t
  start-IsPaced startup disk p s t started =
      Yields-ok StaysPaced _ p started (start-StaysPaced startup disk) s t
