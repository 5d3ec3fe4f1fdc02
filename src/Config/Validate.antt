-- ===== src/Config/Validate.antt =====
-- src/config.rs, `AppConfig::validate`. The errors carry what the messages print.
-- `cron_accepts` stands for `cron::Schedule::from_str` of the crate `cron`, seen as a test.
pub mod Accepts
use homeserver_rust.Prelude.{
  ℕ, Bool, true, false, not, ◌||◌, String, List, [], ◌∷◌, Option, none, some, ltb, ◌=s=◌,
}
use homeserver_rust.Prelude.Result.{Result, ok, ◌>>◌, ensure}
use homeserver_rust.Config.{
  AlertRule, alert_metrics, ServerConfig, DatabaseConfig, PublishingConfig, MonitoringConfig,
  AppConfig,
}
use homeserver_rust.Config.Cron.{normalize_cron_expression}

pub data ConfigError : Type 0 where
  port : ℕ → ConfigError
  empty_path : ConfigError
  max_pool_size flush_rate flush_interval retention_days prune_interval : ℕ → ConfigError
  cron_expression : String → ConfigError
  vacuum_interval aggregation_interval raw_retention minute_retention : ℕ → ConfigError
  cpu_frequency ram_frequency broadcast_capacity sample_interval stats_log_interval :
      ℕ → ConfigError
  empty_rule_name : ConfigError
  unknown_metric invalid_op : String → String → ConfigError

abbrev Check : Type 0
Check = Result ConfigError (Unit {0})

-- `[&str]::contains`
unfoldable pub contains : List String → String → Bool
contains [] s = false
contains (x ∷ xs) s = (x =s= s) || contains xs s

unfoldable pub validate_server : ServerConfig → Check
validate_server c = ensure (ltb 0 c.port) (port c.port)

unfoldable pub validate_limits : DatabaseConfig → Check
validate_limits d = do
  ensure (not (d.path =s= "")) empty_path
  ensure (ltb 0 d.max_pool_size) (max_pool_size d.max_pool_size)
  ensure (ltb 0 d.flush_rate) (flush_rate d.flush_rate)
  ensure (ltb 0 d.flush_interval_secs) (flush_interval d.flush_interval_secs)
  ensure (ltb 0 d.retention_days) (retention_days d.retention_days)
  ensure (ltb 0 d.prune_interval_secs) (prune_interval d.prune_interval_secs)

-- The `if let Some(ref cron_str)`.
unfoldable pub validate_vacuum : (String → Bool) → Option String → ℕ → Check
validate_vacuum cron_accepts none interval = ensure (ltb 0 interval) (vacuum_interval interval)
validate_vacuum cron_accepts (some cron_str) interval =
    ensure (cron_accepts (normalize_cron_expression cron_str)) (cron_expression cron_str)

-- The `if self.database.enable_aggregation`.
unfoldable pub validate_aggregation : Bool → DatabaseConfig → Check
validate_aggregation false d = ok tt
validate_aggregation true d = do
  ensure (ltb 0 d.aggregation_interval_secs) (aggregation_interval d.aggregation_interval_secs)
  ensure (ltb 0 d.raw_retention_hours) (raw_retention d.raw_retention_hours)
  ensure (ltb 0 d.minute_retention_hours) (minute_retention d.minute_retention_hours)

unfoldable pub validate_intervals : PublishingConfig → MonitoringConfig → Check
validate_intervals p m = do
  ensure (ltb 0 p.cpu_stats_frequency_ms) (cpu_frequency p.cpu_stats_frequency_ms)
  ensure (ltb 0 p.ram_stats_frequency_ms) (ram_frequency p.ram_stats_frequency_ms)
  ensure (ltb 0 p.broadcast_capacity) (broadcast_capacity p.broadcast_capacity)
  ensure (ltb 0 m.sample_interval_ms) (sample_interval m.sample_interval_ms)
  ensure (ltb 0 m.stats_log_interval_secs) (stats_log_interval m.stats_log_interval_secs)

module _ {F : Type 0} where
  unfoldable pub validate_rule : AlertRule F → Check
  validate_rule r = do
    ensure (not (r.name =s= "")) empty_rule_name
    ensure (contains alert_metrics r.metric) (unknown_metric r.name r.metric)
    ensure ((r.op =s= ">") || (r.op =s= ">=") || (r.op =s= "<") || (r.op =s= "<="))
        (invalid_op r.name r.op)

  -- `for rule in &self.alerts.rules`
  unfoldable pub validate_rules : List (AlertRule F) → Check
  validate_rules [] = ok tt
  validate_rules (r ∷ rs) = validate_rule r >> validate_rules rs

  unfoldable pub validate : (String → Bool) → AppConfig F → Check
  validate cron_accepts c = do
    validate_server c.server
    validate_limits c.database
    validate_vacuum cron_accepts c.database.vacuum_schedule c.database.vacuum_interval_secs
    validate_aggregation c.database.enable_aggregation c.database
    validate_intervals c.publishing c.monitoring
    validate_rules c.alerts.rules
