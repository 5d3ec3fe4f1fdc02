-- ===== src/Config/Load/Completes.antt =====
-- What the serde defaults of src/config.rs put in the place of a missing field, number by number.
use homeserver_rust.Prelude.{
  ◌≡◌, refl, true, false, List, [], ◌∷◌, map, Option, none, some, unwrap_or,
}
use homeserver_rust.Config.{AlertRule, AlertsConfig, AppConfig}
use homeserver_rust.Config.Load.{
  AlertRuleFields, AlertsFields, AppFields, rule_of, database_of, monitoring_of, alerts_of, app_of,
}

-- The value that is given, or this one.
abbrev pub Gives : {A : Type 0} → Option A → A → A → Type 0
Gives none default x = x ≡ default
Gives (some a) default x = x ≡ a

unwrap_or-Gives : {A : Type 0} (o : Option A) (d : A) → Gives o d (unwrap_or o d)
unwrap_or-Gives none d = refl
unwrap_or-Gives (some a) d = refl

module _ {F : Type 0} where
  pub record IsCompletedRule (r : AlertRuleFields F) (c : AlertRule F) : Type 0 where
    pub name : c.name ≡ r.name
    pub metric : c.metric ≡ r.metric
    pub op : c.op ≡ r.op
    pub threshold : c.threshold ≡ r.threshold
    pub duration_secs : Gives r.duration_secs 0 c.duration_secs
    pub cooldown_secs : Gives r.cooldown_secs 300 c.cooldown_secs

  -- Rule by rule.
  abbrev pub AreCompleted : List (AlertRuleFields F) → List (AlertRule F) → Type 0
  AreCompleted [] [] = Unit
  AreCompleted [] (c ∷ cs) = ⊥
  AreCompleted (r ∷ rs) [] = ⊥
  AreCompleted (r ∷ rs) (c ∷ cs) = IsCompletedRule r c × AreCompleted rs cs

  abbrev pub AreAlerts : Option (AlertsFields F) → AlertsConfig F → Type 0
  AreAlerts none c = (c.webhook_url ≡ none) × (c.rules ≡ [])
  AreAlerts (some a) c =
      (c.webhook_url ≡ a.webhook_url) × AreCompleted (unwrap_or a.rules []) c.rules

  pub record IsCompleted (a : AppFields F) (c : AppConfig F) : Type 0 where
    pub server : c.server ≡ a.server
    pub path : c.database.path ≡ a.database.path
    pub max_pool_size : c.database.max_pool_size ≡ a.database.max_pool_size
    pub flush_rate : c.database.flush_rate ≡ a.database.flush_rate
    pub flush_interval : Gives a.database.flush_interval_secs 30 c.database.flush_interval_secs
    pub retention : Gives a.database.retention_days 3 c.database.retention_days
    pub prune_interval : Gives a.database.prune_interval_secs 3_600 c.database.prune_interval_secs
    pub aggregates : Gives a.database.enable_aggregation true c.database.enable_aggregation
    pub aggregation_interval :
        Gives a.database.aggregation_interval_secs 3_600 c.database.aggregation_interval_secs
    pub raw_retention : Gives a.database.raw_retention_hours 1 c.database.raw_retention_hours
    pub minute_retention :
        Gives a.database.minute_retention_hours 24 c.database.minute_retention_hours
    pub vacuum_schedule : c.database.vacuum_schedule ≡ a.database.vacuum_schedule
    pub vacuum_interval :
        Gives a.database.vacuum_interval_secs 86_400 c.database.vacuum_interval_secs
    pub persists_gpu : Gives a.database.persist_gpu true c.database.persist_gpu
    pub persists_smart : Gives a.database.persist_smart true c.database.persist_smart
    pub publishing : c.publishing ≡ a.publishing
    pub sample_interval : c.monitoring.sample_interval_ms ≡ a.monitoring.sample_interval_ms
    pub stats_log_interval :
        c.monitoring.stats_log_interval_secs ≡ a.monitoring.stats_log_interval_secs
    pub collects_gpu : Gives a.monitoring.collect_gpu true c.monitoring.collect_gpu
    pub collects_smart : Gives a.monitoring.collect_smart false c.monitoring.collect_smart
    pub smart_poll_interval :
        Gives a.monitoring.smart_poll_interval_secs 900 c.monitoring.smart_poll_interval_secs
    pub alerts : AreAlerts a.alerts c.alerts

  rules-AreCompleted : (rs : List (AlertRuleFields F)) → AreCompleted rs (map rule_of rs)
  unfolding rule_of
  rules-AreCompleted [] = tt
  rules-AreCompleted (r ∷ rs) = (
    record {
      name = refl;
      metric = refl;
      op = refl;
      threshold = refl;
      duration_secs = unwrap_or-Gives r.duration_secs 0;
      cooldown_secs = unwrap_or-Gives r.cooldown_secs 300;
    },
    rules-AreCompleted rs,
  )

  alerts_of-AreAlerts : (a : Option (AlertsFields F)) → AreAlerts a (alerts_of a)
  unfolding alerts_of
  alerts_of-AreAlerts none = (refl, refl)
  alerts_of-AreAlerts (some a) = (refl, rules-AreCompleted (unwrap_or a.rules []))

  pub app_of-IsCompleted : (a : AppFields F) → IsCompleted a (app_of a)
  unfolding app_of database_of monitoring_of
  app_of-IsCompleted a = record {
    server = refl;
    path = refl;
    max_pool_size = refl;
    flush_rate = refl;
    flush_interval = unwrap_or-Gives a.database.flush_interval_secs 30;
    retention = unwrap_or-Gives a.database.retention_days 3;
    prune_interval = unwrap_or-Gives a.database.prune_interval_secs 3_600;
    aggregates = unwrap_or-Gives a.database.enable_aggregation true;
    aggregation_interval = unwrap_or-Gives a.database.aggregation_interval_secs 3_600;
    raw_retention = unwrap_or-Gives a.database.raw_retention_hours 1;
    minute_retention = unwrap_or-Gives a.database.minute_retention_hours 24;
    vacuum_schedule = refl;
    vacuum_interval = unwrap_or-Gives a.database.vacuum_interval_secs 86_400;
    persists_gpu = unwrap_or-Gives a.database.persist_gpu true;
    persists_smart = unwrap_or-Gives a.database.persist_smart true;
    publishing = refl;
    sample_interval = refl;
    stats_log_interval = refl;
    collects_gpu = unwrap_or-Gives a.monitoring.collect_gpu true;
    collects_smart = unwrap_or-Gives a.monitoring.collect_smart false;
    smart_poll_interval = unwrap_or-Gives a.monitoring.smart_poll_interval_secs 900;
    alerts = alerts_of-AreAlerts a.alerts;
  }
