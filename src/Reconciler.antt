-- ===== src/Reconciler.antt =====
-- internal/reconciler: the comparison of what the workloads ask for with what the providers hold, and
-- the changes that follow from it.
pub mod Result
pub mod Cache
pub mod Env
pub mod Ensure
pub mod Route
pub mod Orphan
pub mod Cycle
pub mod Startup
pub mod Comparison
pub mod DryRun
