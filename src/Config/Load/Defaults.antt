-- ===== src/Config/Load/Defaults.antt =====
-- What the defaults of src/config.rs add is always valid.
use homeserver_rust.Prelude.{
  ℕ, ◌<◌, ◌≡◌, refl, ◌≢◌, Bool, true, String, Option, none, some, All, arith, unwrap_or,
}
use homeserver_rust.Prelude.Options.{Holds}
use homeserver_rust.Prelude.Result.{Result, ok, err, ◌>>=◌, IsOk}
use homeserver_rust.Config.{AppConfig}
use homeserver_rust.Config.Cron.{normalize_cron_expression}
use homeserver_rust.Config.Validate.{ConfigError}
use homeserver_rust.Config.Validate.Accepts.{IsValid, IsValidRule, IsValidSchedule, validate_iff}
use homeserver_rust.Config.Load.Completes.{IsCompleted, app_of-IsCompleted}
use homeserver_rust.Config.Load.{
  AppFields, database_of, monitoring_of, alerts_of, app_of, invalid, map_err, load_from_str,
}

abbrev pub IsPositive : ℕ → Type 0
IsPositive n = 0 < n

-- What the text gives is valid; nothing is asked of a field that it leaves out.
pub record AreValid {F : Type 0} (cron_accepts : String → Bool) (a : AppFields F) : Type 0 where
  pub port : IsPositive a.server.port
  pub path : a.database.path ≢ ""
  pub max_pool_size : IsPositive a.database.max_pool_size
  pub flush_rate : IsPositive a.database.flush_rate
  pub flush_interval : Holds IsPositive a.database.flush_interval_secs
  pub retention : Holds IsPositive a.database.retention_days
  pub prune_interval : Holds IsPositive a.database.prune_interval_secs
  pub schedule :
      Holds (λ s. cron_accepts (normalize_cron_expression s) ≡ true) a.database.vacuum_schedule
  pub vacuum_interval : Holds IsPositive a.database.vacuum_interval_secs
  pub aggregation_interval : Holds IsPositive a.database.aggregation_interval_secs
  pub raw_retention : Holds IsPositive a.database.raw_retention_hours
  pub minute_retention : Holds IsPositive a.database.minute_retention_hours
  pub cpu_frequency : IsPositive a.publishing.cpu_stats_frequency_ms
  pub ram_frequency : IsPositive a.publishing.ram_stats_frequency_ms
  pub broadcast : IsPositive a.publishing.broadcast_capacity
  pub sample_interval : IsPositive a.monitoring.sample_interval_ms
  pub stats_log_interval : IsPositive a.monitoring.stats_log_interval_secs
  pub rules : All IsValidRule (alerts_of a.alerts).rules

unwrap_or-IsPositive :
    (o : Option ℕ) (d : ℕ) → IsPositive d → Holds IsPositive o → IsPositive (unwrap_or o d)
unwrap_or-IsPositive none d default h = default
unwrap_or-IsPositive (some n) d default h = h

schedule-IsValidSchedule :
    (cron_accepts : String → Bool) (schedule : Option String) (interval : ℕ)
    → Holds (λ s. cron_accepts (normalize_cron_expression s) ≡ true) schedule
    → IsPositive interval
    → IsValidSchedule cron_accepts schedule interval
schedule-IsValidSchedule cron_accepts none interval h positive = positive
schedule-IsValidSchedule cron_accepts (some s) interval h positive = h

module _ {F : Type 0} (cron_accepts : String → Bool) where
  app_of-IsValid : (a : AppFields F) → AreValid cron_accepts a → IsValid cron_accepts (app_of a)
  unfolding app_of database_of monitoring_of
  app_of-IsValid a v = record {
    port = v.port;
    path = v.path;
    max_pool_size = v.max_pool_size;
    flush_rate = v.flush_rate;
    flush_interval = unwrap_or-IsPositive _ 30 (omega arith) v.flush_interval;
    retention = unwrap_or-IsPositive _ 3 (omega arith) v.retention;
    prune_interval = unwrap_or-IsPositive _ 3_600 (omega arith) v.prune_interval;
    schedule =
        schedule-IsValidSchedule cron_accepts _ _ v.schedule
          (unwrap_or-IsPositive _ 86_400 (omega arith) v.vacuum_interval);
    aggregation = λ _. (
      unwrap_or-IsPositive _ 3_600 (omega arith) v.aggregation_interval,
      unwrap_or-IsPositive _ 1 (omega arith) v.raw_retention,
      unwrap_or-IsPositive _ 24 (omega arith) v.minute_retention,
    );
    cpu_frequency = v.cpu_frequency;
    ram_frequency = v.ram_frequency;
    broadcast = v.broadcast;
    sample_interval = v.sample_interval;
    stats_log_interval = v.stats_log_interval;
    rules = v.rules;
  }

  map_err-ok :
      (e : Result ConfigError (Unit {0})) (c : AppConfig F)
      → IsOk e
      → (map_err invalid e >>= λ _. ok c) ≡ ok c
  map_err-ok (ok u) c h = refl
  map_err-ok (err x) c h = absurd h

  -- If the text has fields that are valid, those with a default being valid or missing, then a
  -- configuration is loaded that has each value that the text gives, and where it gives none: a
  -- flush every 30 s, 3 days of retention, a prune and a roll-up every 3600 s, the roll-up switched
  -- on, raw rows kept 1 hour and minutes 24, VACUUM every 86400 s and without a schedule, graphics
  -- cards collected and SMART not, both persisted, SMART read every 900 s, no webhook and no rules,
  -- and in a rule a duration of 0 s and a cooldown of 300 s.
  pub load_from_str-defaults :
      (from_str : String → Option (AppFields F)) (s : String) (a : AppFields F)
      → from_str s ≡ some a
      → AreValid cron_accepts a
      → (c : AppConfig F) × (load_from_str cron_accepts from_str s ≡ ok c) × IsCompleted a c
  unfolding load_from_str
  load_from_str-defaults from_str s a read valid = (
    app_of a,
    rw read (
        map_err-ok _ (app_of a)
          ((validate_iff cron_accepts (app_of a)).1 (app_of-IsValid a valid))),
    app_of-IsCompleted a,
  )
