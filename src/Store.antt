-- ===== src/Store.antt =====
-- src/store/src/lib.rs: the bounded event store. Events, Prune and Query hold the program; the
-- other children prove.
pub mod Events
pub mod Prune
pub mod Query
pub mod Accounting
pub mod Bounds
pub mod Ledger
pub mod Queries
pub mod Policy
pub mod Retention
mod Tests
