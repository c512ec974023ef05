-- ===== src/Alerts.antt =====
-- packages/api/src/docker/docker-alert-evaluator.ts: the pure evaluators behind Docker alerts.
pub mod Unavailable
pub mod Evidence
pub mod RuleState
pub mod Typed
