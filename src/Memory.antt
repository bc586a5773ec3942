-- ===== src/Memory.antt =====
-- The address space of a process: ape/mm.rs, the range tests and table updates of mm/mod.rs, the
-- choice of ape/fault_policy.rs, and the constants of layout.rs that they use.
pub mod State
pub mod Ranges
pub mod Layout
pub mod Free
pub mod Search
pub mod Faults
pub mod Tables
pub mod Unmap
pub mod Pages
pub mod Mmap
pub mod Eager
pub mod Protect
pub mod Tests
