-- ===== src/Goal.antt =====
-- internal/session/goal.go: the goal of a session, its status and its token budget.
pub mod Types
pub mod Service
pub mod Budget
pub mod History
pub mod Atomic
pub mod Charging
mod Tests
