-- ===== src/Access.antt =====
-- The in-process guards of packages/api/src: who may hold an agent's lifecycle, how many terminals may
-- be open, how many requests a window lets through, and where an SSH connection may go.
pub mod Lifecycle
pub mod Terminals
pub mod RateLimit
pub mod HostPolicy
mod Tests
