-- ===== src/Transport.antt =====
-- src/transport/src/lib.rs: requests, their outcomes and one connection. Request and Drive hold the
-- program.
pub mod Request
pub mod Drive
pub mod Handshake
pub mod Reconnect
pub mod Handle
pub mod Settlement
pub mod Written
pub mod Numbering
pub mod Ranking
pub mod Outage
pub mod Mock
pub mod System
mod Tests
