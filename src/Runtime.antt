-- ===== src/Runtime.antt =====
-- mixapi/runtime: the coordination services that keep their state in Redis.
pub mod Holds
pub mod Quota
pub mod Circuits
pub mod Idempotency
pub mod Sessions
pub mod Budget
pub mod Snapshots
