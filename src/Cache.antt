-- ===== src/Cache.antt =====
-- internal/cache
pub mod Item
pub mod Wire
pub mod Shard
pub mod Store
pub mod Dispatch
