-- ===== src/Files.antt =====
-- The file descriptors of the processes: ape/files.rs and fs/fd.rs.
pub mod State
pub mod Maps
pub mod Calls
pub mod Opens
pub mod Numbers
pub mod Sharing
pub mod Closing
pub mod Opening
pub mod Ends
pub mod Pipes
pub mod Getdents
pub mod Dirents
pub mod Returned
pub mod Trace
mod Tests
