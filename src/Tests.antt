-- ===== src/Tests.antt =====
-- Runs of the theorems at concrete inputs.
pub mod Samples
pub mod Stores
pub mod Names
pub mod Resources
pub mod Runs
pub mod Repositories
pub mod Catalogs
pub mod Schedules
pub mod Revisions
