-- ===== src/Tests.antt =====
-- Runs on concrete inputs, and the theorems at them.
mod Shards
mod Evictions
mod Heaps
mod Leases
mod Files
mod Caches
mod Transactions
mod Rings
mod Topics
mod Totals
mod Connections
mod Commands
