-- ===== src/Reconcilers.antt =====
-- The reconcilers of package revisions under pkg/reconcilers, one module each.
pub mod Gate
pub mod Approval
pub mod Installer
pub mod Processor
pub mod Scheduler
pub mod Variant
pub mod Discovery
pub mod Traced
pub mod Revision
