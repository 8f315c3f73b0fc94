-- ===== src/Schema.antt =====
-- internal/schema: the resource contract, kinds and identities, PVE configuration values, the
-- configuration of a cloned VM, and human quantities.
pub mod Value
pub mod Kind
pub mod Resource
pub mod CloneConfig
pub mod Cloned
pub mod Depends
pub mod Artifact
pub mod Volumes
pub mod Drive
pub mod Preserved
pub mod References
pub mod Named
pub mod Unresolved
pub mod Resolved
pub mod Quantity
pub mod Amounts
pub mod Human
mod Tests
