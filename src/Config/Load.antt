-- ===== src/Config/Load.antt =====
-- src/config.rs: a configuration is read from a file, completed by the defaults of the
-- `#[serde(default)]` attributes, and validated. The crate `toml` is a parameter: it gives the
-- fields that a text has, with `none` where a field that has a default is missing.
pub mod Completes
pub mod Defaults
use homeserver_rust.Prelude.{
  ℕ, Bool, true, false, String, List, [], Option, none, some, map, unwrap_or,
}
use homeserver_rust.Prelude.Result.{Result, ok, err, ◌>>=◌}
use homeserver_rust.Config.{
  AlertRule, AlertsConfig, ServerConfig, DatabaseConfig, PublishingConfig, MonitoringConfig,
  AppConfig,
}
use homeserver_rust.Config.Validate.{ConfigError, validate}

-- Of a rule.
pub record AlertRuleFields (F : Type 0) : Type 0 where
  pub name : String
  pub metric : String
  pub op : String
  pub threshold : F
  pub duration_secs : Option ℕ
  pub cooldown_secs : Option ℕ

pub record AlertsFields (F : Type 0) : Type 0 where
  pub webhook_url : Option String
  pub rules : Option (List (AlertRuleFields F))

pub record DatabaseFields : Type 0 where
  pub path : String
  pub max_pool_size : ℕ
  pub flush_rate : ℕ
  pub flush_interval_secs : Option ℕ
  pub retention_days : Option ℕ
  pub prune_interval_secs : Option ℕ
  pub enable_aggregation : Option Bool
  pub aggregation_interval_secs : Option ℕ
  pub raw_retention_hours : Option ℕ
  pub minute_retention_hours : Option ℕ
  pub vacuum_schedule : Option String
  pub vacuum_interval_secs : Option ℕ
  pub persist_gpu : Option Bool
  pub persist_smart : Option Bool

pub record MonitoringFields : Type 0 where
  pub sample_interval_ms : ℕ
  pub stats_log_interval_secs : ℕ
  pub collect_gpu : Option Bool
  pub collect_smart : Option Bool
  pub smart_poll_interval_secs : Option ℕ

-- `[server]` and `[publishing]` have no defaults.
pub record AppFields (F : Type 0) : Type 0 where
  pub server : ServerConfig
  pub database : DatabaseFields
  pub publishing : PublishingConfig
  pub monitoring : MonitoringFields
  pub alerts : Option (AlertsFields F)

unfoldable pub database_of : DatabaseFields → DatabaseConfig
database_of d = record {
  path = d.path;
  max_pool_size = d.max_pool_size;
  flush_rate = d.flush_rate;
  flush_interval_secs = unwrap_or d.flush_interval_secs 30;
  retention_days = unwrap_or d.retention_days 3;
  prune_interval_secs = unwrap_or d.prune_interval_secs 3_600;
  enable_aggregation = unwrap_or d.enable_aggregation true;
  aggregation_interval_secs = unwrap_or d.aggregation_interval_secs 3_600;
  raw_retention_hours = unwrap_or d.raw_retention_hours 1;
  minute_retention_hours = unwrap_or d.minute_retention_hours 24;
  vacuum_schedule = d.vacuum_schedule;
  vacuum_interval_secs = unwrap_or d.vacuum_interval_secs 86_400;
  persist_gpu = unwrap_or d.persist_gpu true;
  persist_smart = unwrap_or d.persist_smart true;
}

unfoldable pub monitoring_of : MonitoringFields → MonitoringConfig
monitoring_of m = record {
  sample_interval_ms = m.sample_interval_ms;
  stats_log_interval_secs = m.stats_log_interval_secs;
  collect_gpu = unwrap_or m.collect_gpu true;
  collect_smart = unwrap_or m.collect_smart false;
  smart_poll_interval_secs = unwrap_or m.smart_poll_interval_secs 900;
}

pub data LoadError : Type 0 where
  io toml : LoadError
  invalid : ConfigError → LoadError

-- `?` on a result whose error is only known to be one
abbrev pub or_fail : {E A : Type 0} → E → Option A → Result E A
or_fail e none = err e
or_fail e (some a) = ok a

-- `?` turns the error into that of the caller.
abbrev pub map_err : {D E A : Type 0} → (D → E) → Result D A → Result E A
map_err f (ok a) = ok a
map_err f (err d) = err (f d)

-- `env::var("CONFIG_FILE").unwrap_or_else(…)`
unfoldable pub config_path : Option String → String
config_path var = unwrap_or var "config.toml"

module _ {F : Type 0} where
  unfoldable pub rule_of : AlertRuleFields F → AlertRule F
  rule_of r = record {
    name = r.name;
    metric = r.metric;
    op = r.op;
    threshold = r.threshold;
    duration_secs = unwrap_or r.duration_secs 0;
    cooldown_secs = unwrap_or r.cooldown_secs 300;
  }

  unfoldable pub alerts_of : Option (AlertsFields F) → AlertsConfig F
  unfolding rule_of
  alerts_of none = record { webhook_url = none; rules = [] }
  alerts_of (some a) = record {
    webhook_url = a.webhook_url;
    rules = map rule_of (unwrap_or a.rules []);
  }

  unfoldable pub app_of : AppFields F → AppConfig F
  unfolding database_of monitoring_of alerts_of
  app_of a = record {
    server = a.server;
    database = database_of a.database;
    publishing = a.publishing;
    monitoring = monitoring_of a.monitoring;
    alerts = alerts_of a.alerts;
  }

module _ {F : Type 0} (cron_accepts : String → Bool)
    (from_str : String → Option (AppFields F)) where
  unfoldable pub load_from_str : String → Result LoadError (AppConfig F)
  unfolding app_of validate
  load_from_str s = do
    fields ← or_fail toml (from_str s)
    let config = app_of fields
    _ ← map_err invalid (validate cron_accepts config)
    ok config

  -- `read` is `std::fs::read_to_string`.
  unfoldable pub load : Option String → (String → Option String) → Result LoadError (AppConfig F)
  unfolding config_path load_from_str
  load var read = do s ← or_fail io (read (config_path var)); load_from_str s
