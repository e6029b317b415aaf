-- ===== src/Store.antt =====
-- The package internal/store.
pub mod Entry
pub mod Hash
pub mod Wal
pub mod Threads
pub mod Recovery
pub mod Sort
pub mod Scan
pub mod Reap
pub mod Snapshot
pub mod Start
pub mod State
