-- ===== src/Editor.antt =====
-- internal/terminal/editor.go: the multiline editor with its history and slash completion.
pub mod Types
pub mod Setup
pub mod Keys
pub mod Session
pub mod Measure
pub mod Invariant
pub mod Offers
pub mod Browse
pub mod Safety
pub mod Reading
pub mod Candidates
pub mod Laws
pub mod Menu
mod Tests
