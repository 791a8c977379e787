-- ===== src/Task.antt =====
-- internal/task/task.go: the index of the shell and agent tasks.
pub mod Manager
pub mod Scans
pub mod Resolution
pub mod Registry
mod Tests
