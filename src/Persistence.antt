-- ===== src/Persistence.antt =====
-- internal/persistence: the append-only file, snapshots, and recovery.
pub mod Codec
pub mod Aof
pub mod Snapshot
pub mod Manager
