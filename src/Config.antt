-- ===== src/Config.antt =====
-- src/config.rs: the configuration records. `F` stands for `f64`.
pub mod Cron
pub mod Validate
pub mod Load
use homeserver_rust.Prelude.{ℕ, Bool, String, List, [], ◌∷◌, Option}

pub record AlertRule (F : Type 0) : Type 0 where
  pub name : String
  pub metric : String
  pub op : String
  pub threshold : F
  pub duration_secs : ℕ
  pub cooldown_secs : ℕ

pub record AlertsConfig (F : Type 0) : Type 0 where
  pub webhook_url : Option String
  pub rules : List (AlertRule F)

-- The metric names that a rule may give.
abbrev pub alert_metrics : List String
alert_metrics =
    "cpu_usage" ∷ "mem_usage_percent" ∷ "swap_usage_percent" ∷ "load_avg_1" ∷ "cpu_temperature"
    ∷ "disk_usage_percent" ∷ "gpu_temperature" ∷ "gpu_utilization" ∷ []

pub record ServerConfig : Type 0 where
  pub port : ℕ
  pub host : String

pub record DatabaseConfig : Type 0 where
  pub path : String
  pub max_pool_size : ℕ
  pub flush_rate : ℕ
  pub flush_interval_secs : ℕ
  pub retention_days : ℕ
  pub prune_interval_secs : ℕ
  pub enable_aggregation : Bool
  pub aggregation_interval_secs : ℕ
  pub raw_retention_hours : ℕ
  pub minute_retention_hours : ℕ
  pub vacuum_schedule : Option String
  pub vacuum_interval_secs : ℕ
  pub persist_gpu : Bool
  pub persist_smart : Bool

pub record PublishingConfig : Type 0 where
  pub cpu_stats_frequency_ms : ℕ
  pub ram_stats_frequency_ms : ℕ
  pub broadcast_capacity : ℕ

pub record MonitoringConfig : Type 0 where
  pub sample_interval_ms : ℕ
  pub stats_log_interval_secs : ℕ
  pub collect_gpu : Bool
  pub collect_smart : Bool
  pub smart_poll_interval_secs : ℕ

pub record AppConfig (F : Type 0) : Type 0 where
  pub server : ServerConfig
  pub database : DatabaseConfig
  pub publishing : PublishingConfig
  pub monitoring : MonitoringConfig
  pub alerts : AlertsConfig F
