-- ===== src/Monitoring.antt =====
-- packages/api/src/persistence/repositories/docker-monitoring.repository.ts: the JSON store of Docker
-- monitoring, as steps on a store.
pub mod Records
pub mod Runtime
pub mod Tables
pub mod Caps
pub mod HostRule
pub mod Evidence
pub mod TypedRules
pub mod Ingest
pub mod Upkeep
pub mod Cursor
pub mod Pages
pub mod Lists
pub mod Pruning
mod Examples
mod Tests
mod ListTests
