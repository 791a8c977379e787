-- ===== src/Permission.antt =====
-- internal/permission/permission.go: the broker that asks the user before an operation.
pub mod Broker
pub mod Stages
pub mod Safety
mod Tests
