-- ===== src/Question.antt =====
-- internal/question/broker.go: the questions of the model to the user.
pub mod Types
pub mod Broker
pub mod Counts
pub mod Once
pub mod History
pub mod Validity
pub mod Complete
pub mod Settling
mod Tests
