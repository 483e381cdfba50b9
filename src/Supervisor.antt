-- ===== src/Supervisor.antt =====
-- src/supervisor/src/lib.rs: the shared daemon and the GUI. Listing, Ops and Supervise hold the
-- program; the other children prove.
pub mod Listing
pub mod Ops
pub mod Supervise
mod Rules
mod Care
mod Conduct
mod Success
mod Watch
pub mod Clock
pub mod Finish
mod Tests
