-- ===== src/Pve.antt =====
-- internal/pveclient: the write breaker and the wait for a task.
pub mod Breaker
pub mod Client
pub mod Gate
pub mod Outage
pub mod Task
mod Tests
