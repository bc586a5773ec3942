-- ===== src/Task.antt =====
-- ape/task.rs and ape/state.rs: tasks, and the tables that the manager keeps of them. The locks are
-- taken for one access at a time, so a method is a function of the state that it locks.
pub mod Struct
pub mod State
pub mod Events
pub mod Frames
pub mod Lifecycle
pub mod Numbers
pub mod Wait
pub mod Regions
pub mod Ledger
mod Tests
