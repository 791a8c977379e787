-- ===== src/Event.antt =====
-- internal/event/transient_repository.go and broker.go: live events and the streams of a session and its ancestors.
pub mod Transient
pub mod Broker
pub mod Shared
pub mod Kept
pub mod History
pub mod Route
pub mod Open
pub mod Deliver
mod Tests
