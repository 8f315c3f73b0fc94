-- ===== src/Parse.antt =====
-- internal/parse: the index of the desired resources.
pub mod Index
pub mod Unique
pub mod Cycle
pub mod Deps
pub mod Levels
pub mod Checked
mod Tests
