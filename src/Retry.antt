-- ===== src/Retry.antt =====
-- internal/provider/stream_retry.go: the stream that reconnects.
pub mod Stream
pub mod Invariant
pub mod Origin
mod Tests
