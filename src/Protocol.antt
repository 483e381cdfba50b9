-- ===== src/Protocol.antt =====
-- src/protocol/src/lib.rs: the wire frames and the sequenced events. A child for each part.
pub mod Json
pub mod Frame
pub mod Event
pub mod Laws
mod Tests
