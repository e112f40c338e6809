-- ===== src/Daemon.antt =====
-- rust/crates/shachain2pc-daemon/src: the state of the daemon and the operations on it.
pub mod Record
pub mod State
pub mod Batch
pub mod Db
pub mod Secrets
pub mod Frontier
pub mod Precompute
pub mod Channels
pub mod Tests
