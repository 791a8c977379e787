-- ===== src/Change.antt =====
-- internal/change/change.go and PlanPatch of patch.go: mutations of files, planned from a patch and committed as one.
pub mod Disk
pub mod Commit
pub mod Calls
pub mod Undo
pub mod Apply
pub mod Make
pub mod Sorted
pub mod Atomic
pub mod Planner
pub mod Makes
pub mod Planned
mod Tests
