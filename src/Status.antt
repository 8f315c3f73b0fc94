-- ===== src/Status.antt =====
-- internal/statusx: the store of convergence records.
pub mod Store
pub mod Listing
mod Tests
