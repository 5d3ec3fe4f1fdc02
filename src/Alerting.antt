-- ===== src/Alerting.antt =====
-- src/alerting: threshold rules, evaluated against each snapshot.
pub mod Metrics
pub mod Engine
pub mod Notify
pub mod Timing
pub mod Product
