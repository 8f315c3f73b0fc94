-- ===== src/Plan.antt =====
-- internal/plan/plan.go: the planner. `Types` has its data, `Live` the readings of the inventory,
-- `Desired` the pass over the manifests, `Prune` the pass over the live listing, `Guard` the
-- limits on deletions, `Order` the order of the actions and `Actions` the whole.
pub mod Types
pub mod Live
pub mod Load
pub mod Reading
pub mod Desired
pub mod Prune
pub mod Guard
pub mod Order
pub mod Actions
pub mod Emission
pub mod Candidates
pub mod Safety
pub mod Ordering
pub mod Limits
pub mod Upkeep
pub mod Targets
pub mod Downloads
pub mod Cloning
mod Tests
