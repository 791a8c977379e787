-- ===== src/Diff.antt =====
-- internal/change/diff.go: the edit script that stands in for the shortest one on large changes.
pub mod Script
pub mod Common
pub mod Sides
mod Tests
