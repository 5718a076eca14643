-- ===== src/Eviction.antt =====
-- internal/eviction
pub mod Policy
pub mod Lru
pub mod Fifo
pub mod Random
pub mod Ttl
pub mod Drain
pub mod Queue
pub mod LinkedList
pub mod NoEviction
