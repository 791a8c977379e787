-- ===== src/Patch.antt =====
-- internal/change/patch.go: patches of SEARCH/REPLACE blocks and hunks, and how they are applied to a file.
pub mod Lines
pub mod Spaces
pub mod Seek
pub mod Replace
pub mod Apply
pub mod Split
pub mod Found
pub mod Outcome
pub mod Weave
pub mod Matched
pub mod Places
pub mod Edited
pub mod Served
pub mod Rounds
pub mod Blocks
pub mod Reads
pub mod Written
pub mod Operations
pub mod Merged
pub mod Paths
pub mod Unified
pub mod Converted
mod Tests
