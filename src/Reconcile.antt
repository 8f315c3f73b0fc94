-- ===== src/Reconcile.antt =====
-- internal/reconcile/reconcile.go: one cycle.
pub mod Cycle
pub mod Nodes
pub mod Expected
pub mod Reports
pub mod Finish
pub mod Way
pub mod Safety
mod Tests
