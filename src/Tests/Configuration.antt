-- ===== src/Tests/Configuration.antt =====
-- A configuration that is accepted, and one that is refused.
use homeserver_rust.Prelude.{ℕ, ◌↔◌, ◌≡◌, refl, Bool, true, false, String, [], ◌∷◌, none, some}
use homeserver_rust.Prelude.Result.{ok, err, IsOk}
use homeserver_rust.Config.{AppConfig}
use homeserver_rust.Config.Cron.{normalize_cron_expression}
use homeserver_rust.Config.Validate.{
  ConfigError, contains, validate_server, validate_limits, validate_vacuum, validate_aggregation,
  validate_intervals, validate_rule, validate_rules, validate,
}
use homeserver_rust.Config.Validate.Accepts.{IsValid, validate_iff}

abbrev cron_accepts : String → Bool
cron_accepts s = true

abbrev config : AppConfig ℕ
config = record {
  server = record { port = 8080; host = "0.0.0.0" };
  database = record {
    path = "data.db";
    max_pool_size = 5;
    flush_rate = 10;
    flush_interval_secs = 60;
    retention_days = 30;
    prune_interval_secs = 3600;
    enable_aggregation = true;
    aggregation_interval_secs = 3600;
    raw_retention_hours = 48;
    minute_retention_hours = 168;
    vacuum_schedule = some "0 3 * * 0";
    vacuum_interval_secs = 604_800;
    persist_gpu = true;
    persist_smart = true;
  };
  publishing = record {
    cpu_stats_frequency_ms = 1000;
    ram_stats_frequency_ms = 1000;
    broadcast_capacity = 16;
  };
  monitoring = record {
    sample_interval_ms = 1000;
    stats_log_interval_secs = 60;
    collect_gpu = true;
    collect_smart = false;
    smart_poll_interval_secs = 300;
  };
  alerts = record {
    webhook_url = none;
    rules =
        record {
          name = "cpu";
          metric = "cpu_usage";
          op = ">";
          threshold = 90;
          duration_secs = 5;
          cooldown_secs = 60;
        }
        ∷ [];
  };
}

program : Unit {0}
unfolding contains validate_server validate_limits validate_vacuum validate_aggregation
    validate_intervals validate_rule validate_rules validate
program = tt

cron : normalize_cron_expression " 0 3 * *  0" ≡ "0 0 3 * * 0"
unfolding normalize_cron_expression
cron = refl

accepted : validate cron_accepts config ≡ ok tt
unfolding program
accepted = refl

refused :
    validate cron_accepts
      (record config { database = record config.database { raw_retention_hours = 0 } })
    ≡ err (ConfigError.raw_retention 0)
unfolding program
refused = refl

validate_iff_example : IsOk (validate cron_accepts config) ↔ IsValid cron_accepts config
validate_iff_example = validate_iff cron_accepts config
