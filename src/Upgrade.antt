-- ===== src/Upgrade.antt =====
-- packages/api/src/local-upgrade/ and packages/api/src/persistence/repositories/
-- local-upgrade.repository.ts: the durable job that upgrades the agent of the local host.
pub mod Job
pub mod Store
pub mod Service
pub mod Progress
pub mod Verdict
pub mod Claim
pub mod Unique
pub mod Guarantee
pub mod Catalog
pub mod Meanings
pub mod Creation
pub mod Eligible
pub mod Conditions
pub mod Installable
pub mod View
pub mod Quiet
pub mod Forgotten
pub mod Limits
mod Tests
mod CreationTests
mod QuietTests
