-- ===== src/Ingest.antt =====
-- src/ingest/src/lib.rs: the authoritative ingress, and the discovery, reconciliation and
-- subscription of threads. Ingress, World, Discover and Reconcile hold the program.
pub mod Ingress
pub mod World
pub mod Discover
pub mod Reconcile
pub mod Subscriptions
pub mod Fanout
pub mod Scanning
pub mod Retries
mod Tests
