-- ===== src/Core.antt =====
-- src/core/src/lib.rs: the parts put together.
pub mod Handle
pub mod Run
pub mod Ingress
pub mod Delivery
pub mod Service
pub mod Answers
mod Lifetime
mod Operation
mod Endings
mod Tests
