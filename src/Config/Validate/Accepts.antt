-- ===== src/Config/Validate/Accepts.antt =====
-- Which configurations `validate` of src/config.rs accepts.
use homeserver_rust.Prelude.{
  ℕ, ◌<◌, ◌≡◌, refl, ◌≢◌, ◌↔◌, ◌⊎◌, inl, inr, Bool, true, String, List, [], ◌∷◌, Option, none, some,
  All, arith, Bool-cases, eq_iff,
}
use homeserver_rust.Prelude.Result.{IsOk, >>-IsOk, ensure-IsOk}
use homeserver_rust.Config.{
  AlertRule, alert_metrics, ServerConfig, DatabaseConfig, PublishingConfig, MonitoringConfig,
  AppConfig,
}
use homeserver_rust.Config.Cron.{normalize_cron_expression}
use homeserver_rust.Config.Validate.{
  contains, validate_server, validate_limits, validate_vacuum, validate_aggregation,
  validate_intervals, validate_rule, validate_rules, validate,
}

-- An operator that `compare` of src/alerting/metrics.rs knows.
abbrev pub IsOp : String → Type 0
IsOp op = (op ≡ ">") ⊎ (op ≡ ">=") ⊎ (op ≡ "<") ⊎ (op ≡ "<=")

abbrev pub OneOf : List String → String → Type 0
OneOf [] s = ⊥
OneOf (x ∷ xs) s = (x ≡ s) ⊎ OneOf xs s

pub record IsValidRule {F : Type 0} (r : AlertRule F) : Type 0 where
  pub named : r.name ≢ ""
  pub known : OneOf alert_metrics r.metric
  pub compares : IsOp r.op

abbrev pub IsValidSchedule : (String → Bool) → Option String → ℕ → Type 0
IsValidSchedule cron_accepts none interval = 0 < interval
IsValidSchedule cron_accepts (some cron_str) interval =
    cron_accepts (normalize_cron_expression cron_str) ≡ true

pub record IsValid {F : Type 0} (cron_accepts : String → Bool) (c : AppConfig F) : Type 0 where
  pub port : 0 < c.server.port
  pub path : c.database.path ≢ ""
  pub max_pool_size : 0 < c.database.max_pool_size
  pub flush_rate : 0 < c.database.flush_rate
  pub flush_interval : 0 < c.database.flush_interval_secs
  pub retention : 0 < c.database.retention_days
  pub prune_interval : 0 < c.database.prune_interval_secs
  pub schedule :
      IsValidSchedule cron_accepts c.database.vacuum_schedule c.database.vacuum_interval_secs
  pub aggregation :
      c.database.enable_aggregation ≡ true
      → (0 < c.database.aggregation_interval_secs)
        × (0 < c.database.raw_retention_hours)
        × (0 < c.database.minute_retention_hours)
  pub cpu_frequency : 0 < c.publishing.cpu_stats_frequency_ms
  pub ram_frequency : 0 < c.publishing.ram_stats_frequency_ms
  pub broadcast : 0 < c.publishing.broadcast_capacity
  pub sample_interval : 0 < c.monitoring.sample_interval_ms
  pub stats_log_interval : 0 < c.monitoring.stats_log_interval_secs
  pub rules : All IsValidRule c.alerts.rules

pub contains-OneOf : (xs : List String) (s : String) → (contains xs s ≡ true) ↔ OneOf xs s
unfolding contains
contains-OneOf [] s = (λ h. cc, λ h. absurd h)
contains-OneOf (x ∷ xs) s = (
  λ h. ground (arith, eq_iff x s, contains-OneOf xs s),
  λ h. ground (arith, eq_iff x s, contains-OneOf xs s),
)

module _ {F : Type 0} (r : AlertRule F) where
  rule_accepted : IsOk (validate_rule r) → IsValidRule r
  unfolding validate_rule
  rule_accepted h = ground (
    arith,
    eq_iff r.name "",
    contains-OneOf alert_metrics r.metric,
    eq_iff r.op ">",
    eq_iff r.op ">=",
    eq_iff r.op "<",
    eq_iff r.op "<=",
  )

  rule_passes :
      r.name ≢ "" → contains alert_metrics r.metric ≡ true → IsOp r.op → IsOk (validate_rule r)
  unfolding validate_rule
  rule_passes named known compares = rw known (
      ground (
        arith,
        eq_iff r.name "",
        eq_iff r.op ">",
        eq_iff r.op ">=",
        eq_iff r.op "<",
        eq_iff r.op "<=",
      ))

  rule_valid : IsValidRule r → IsOk (validate_rule r)
  rule_valid h = rule_passes h.named ((contains-OneOf _ _).1 h.known) h.compares

module _ {F : Type 0} where
  rules_accepted : (rs : List (AlertRule F)) → IsOk (validate_rules rs) ↔ All IsValidRule rs
  unfolding validate_rules
  rules_accepted [] = (λ h. tt, λ h. tt)
  rules_accepted (r ∷ rs) = (
    λ h.
        let (head, rest) = (>>-IsOk (validate_rule r) (validate_rules rs)).0 h in
        (rule_accepted r head, (rules_accepted rs).0 rest),
    λ h.
        (>>-IsOk (validate_rule r) (validate_rules rs)).1
          (rule_valid r h.0, (rules_accepted rs).1 h.1),
  )

schedule_accepted :
    (cron_accepts : String → Bool) (schedule : Option String) (interval : ℕ)
    → IsOk (validate_vacuum cron_accepts schedule interval)
      ↔ IsValidSchedule cron_accepts schedule interval
unfolding validate_vacuum
schedule_accepted cron_accepts none interval = (λ h. ground arith, λ h. ground arith)
schedule_accepted cron_accepts (some s) interval = ensure-IsOk _ _

limits_accepted :
    (d : DatabaseConfig)
    → IsOk (validate_limits d) ↔ (
        (d.path ≢ "")
        × (0 < d.max_pool_size)
        × (0 < d.flush_rate)
        × (0 < d.flush_interval_secs)
        × (0 < d.retention_days)
        × (0 < d.prune_interval_secs))
unfolding validate_limits
limits_accepted d = (λ h. ground (arith, eq_iff d.path ""), λ h. ground (arith, eq_iff d.path ""))

aggregation_accepted :
    (d : DatabaseConfig)
    → IsOk (validate_aggregation d.enable_aggregation d) ↔ (
        d.enable_aggregation ≡ true
        → (0 < d.aggregation_interval_secs)
          × (0 < d.raw_retention_hours)
          × (0 < d.minute_retention_hours))
unfolding validate_aggregation
aggregation_accepted d = elim (Bool-cases d.enable_aggregation) [
  | inl on ↦ rw on (λ h on'. ground arith, λ h. let h' = h refl in ground arith)
  | inr off ↦ rw off (λ h on'. cc, λ h. tt)
]

intervals_accepted :
    (p : PublishingConfig) (m : MonitoringConfig)
    → IsOk (validate_intervals p m) ↔ (
        (0 < p.cpu_stats_frequency_ms)
        × (0 < p.ram_stats_frequency_ms)
        × (0 < p.broadcast_capacity)
        × (0 < m.sample_interval_ms)
        × (0 < m.stats_log_interval_secs))
unfolding validate_intervals
intervals_accepted p m = (λ h. ground arith, λ h. ground arith)

server_accepted : (s : ServerConfig) → IsOk (validate_server s) ↔ (0 < s.port)
unfolding validate_server
server_accepted s = (λ h. ground arith, λ h. ground arith)

module _ {F : Type 0} (cron_accepts : String → Bool) (c : AppConfig F) where
  parts : IsOk (validate cron_accepts c) ↔ (
      IsOk (validate_server c.server)
      × IsOk (validate_limits c.database)
      × IsOk
          (validate_vacuum cron_accepts c.database.vacuum_schedule c.database.vacuum_interval_secs)
      × IsOk (validate_aggregation c.database.enable_aggregation c.database)
      × IsOk (validate_intervals c.publishing c.monitoring)
      × IsOk (validate_rules c.alerts.rules))
  unfolding validate
  parts = (λ h. ground arith, λ h. ground arith)

  -- A configuration is accepted exactly when every bound, the schedule and every alert rule is valid.
  pub validate_iff : IsOk (validate cron_accepts c) ↔ IsValid cron_accepts c
  validate_iff = (
    λ h.
        let (server, limits, vacuum, aggregation, intervals, rules) = parts.0 h in
        let (path, pool, flush, flush_secs, days, prune) = (limits_accepted _).0 limits in
        let (cpu, ram, capacity, sample, stats) = (intervals_accepted _ _).0 intervals in
        record {
          port = (server_accepted _).0 server;
          path = path;
          max_pool_size = pool;
          flush_rate = flush;
          flush_interval = flush_secs;
          retention = days;
          prune_interval = prune;
          schedule = (schedule_accepted _ _ _).0 vacuum;
          aggregation = (aggregation_accepted _).0 aggregation;
          cpu_frequency = cpu;
          ram_frequency = ram;
          broadcast = capacity;
          sample_interval = sample;
          stats_log_interval = stats;
          rules = (rules_accepted _).0 rules;
        },
    λ v. parts.1 (
      (server_accepted _).1 v.port,
      (limits_accepted _).1
          (v.path, v.max_pool_size, v.flush_rate, v.flush_interval, v.retention, v.prune_interval),
      (schedule_accepted _ _ _).1 v.schedule,
      (aggregation_accepted _).1 v.aggregation,
      (intervals_accepted _ _).1
          (v.cpu_frequency, v.ram_frequency, v.broadcast, v.sample_interval, v.stats_log_interval),
      (rules_accepted _).1 v.rules,
    ),
  )
