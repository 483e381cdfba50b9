-- ===== src/Reducer.antt =====
-- src/reducer/src/lib.rs: the authoritative lifecycle state, its replay log and its waiters.
-- State, Apply and Waiters hold the program; the other children prove.
pub mod State
pub mod Waiters
pub mod Apply
pub mod Pruning
pub mod Wake
pub mod Replay
pub mod Turns
pub mod Calls
mod Tests
