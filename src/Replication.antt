-- ===== src/Replication.antt =====
-- internal/replication: the messages between a primary and its replicas.
pub mod Codec
pub mod Primary
pub mod Replica
pub mod Converge
