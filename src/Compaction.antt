-- ===== src/Compaction.antt =====
-- internal/compaction/service.go: where the history of a session may be cut.
pub mod Cut
pub mod Counts
pub mod Groups
pub mod Placed
pub mod Calls
pub mod Sound
mod Tests
