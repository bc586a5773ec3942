-- ===== src/Tty.antt =====
-- ape/tty: the state of a terminal and its line discipline.
pub mod State
pub mod Ldisc
pub mod Registry
pub mod Ansi
mod Tests
