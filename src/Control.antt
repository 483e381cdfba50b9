-- ===== src/Control.antt =====
-- src/control/src/lib.rs: the actions on an explicit target and the classification of what came of
-- them. Actions and Locks hold the program; the others prove.
pub mod Actions
pub mod Outcomes
pub mod Evidence
pub mod Completion
pub mod Locks
pub mod Exclusion
pub mod Picking
pub mod Order
mod Tests
