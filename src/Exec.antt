-- ===== src/Exec.antt =====
-- internal/exec: the executor of a plan, over the calls of internal/pveclient.
pub mod Session
pub mod Operations
pub mod Apply
pub mod Run
pub mod Deferral
pub mod Chain
pub mod Care
pub mod Careful
pub mod Creation
pub mod Carefulness
pub mod Records
pub mod Whole
mod Tests
