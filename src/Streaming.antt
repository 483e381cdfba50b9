-- ===== src/Streaming.antt =====
-- src/streaming/src/lib.rs: the two topics and their consumers. A `tokio` broadcast channel, a
-- third-party type, is a parameter: what its `recv` returned, or the function of a topic and a place
-- that `recv` is.
pub mod Hub
pub mod Recovery
pub mod Repeats
mod Tests
