-- ===== src/Queue.antt =====
-- internal/queue/queue.go: session-scoped queues as JSON Lines files.
pub mod Names
pub mod File
pub mod Disk
pub mod Ops
pub mod Delivery
pub mod Tests
mod Witnesses
mod Keys
pub mod NameLaws
pub mod Access
pub mod Stored
pub mod Refinement
pub mod Contract
pub mod Notify
pub mod Pinning
pub mod Limits
pub mod Failures
