-- ===== src/Tests/Totals.antt =====
-- What internal/cache counts, on a cache with an item in each of its two shards.
use dist_cache.Base.{
  ℕ, ◌+◌, ◌^◌, ◌<◌, ◌≡◌, ◌==◌, refl, [], ◌∷◌, Bytes, Bytes-discrete, ℕ_discrete, bytes_eq, length,
  arith, Bool-cases, inl, inr,
}
use dist_cache.Base.Assoc.{total, lookup, insert}
use dist_cache.Base.Int64.{pos, wrap, ◌+ℤ◌}
use dist_cache.Cache.Item.{approx_size}
use dist_cache.Cache.Shard
use dist_cache.Cache.Shard.Accounting.{size_of}
use dist_cache.Cache.Store
use dist_cache.Cache.Store.{Cache, new_cache, stats}
use dist_cache.Cache.Store.Reached.{Call, Reached, made, called, run, growth}
use dist_cache.Cache.Store.Totals.{items_below, stats-items_below}
use dist_cache.Eviction.NoEviction.{no_eviction}

abbrev a : Bytes
a = 97 ∷ []

abbrev b : Bytes
b = 98 ∷ []

-- Keys go by their first byte.
abbrev first_byte : Bytes → ℕ
first_byte [] = 0
first_byte (x ∷ _) = x

abbrev fresh : Cache no_eviction
fresh = new_cache no_eviction (pos 2) (pos 0) (pos 0)

abbrev set_a : Call
set_a = Call.set_ttl a (120 ∷ []) (pos 0) (pos 0)

abbrev set_b : Call
set_b = Call.set_ttl b (121 ∷ 122 ∷ []) (pos 0) (pos 0)

abbrev one_full : Cache no_eviction
one_full = run first_byte set_a fresh

abbrev two_full : Cache no_eviction
two_full = run first_byte set_b one_full

one_full-fits : (i : ℕ) → total size_of (one_full.shard i).items + growth set_b < 2 ^ 63
unfolding run growth new_cache Store.set_ttl Store.put_shard Store.shard_for Store.index
    Store.next_pow2 Store.double_loop Store.per_shard total size_of approx_size Shard.new_shard
    Shard.set Shard.store Shard.set_locked Shard.emit Shard.enforce_limits Shard.over_capacity
    Shard.evict_loop Shard.emit_dels lookup insert Bytes-discrete ℕ_discrete wrap ◌+ℤ◌
one_full-fits i = elim (Bool-cases (i == 1)) [
  | inl e ↦ rw e (omega arith)
  | inr e ↦ rw e (omega arith)
]

two_full-Reached : Reached first_byte two_full
unfolding new_cache total growth approx_size Shard.new_shard
two_full-Reached =
    called set_b (called set_a (made (pos 2) (pos 0) (pos 0)) (λ i. omega arith)) one_full-fits

counts_two : (stats two_full).1 ≡ pos 2
unfolding stats Store.len_below Shard.len run growth new_cache Store.set_ttl Store.put_shard
    Store.shard_for Store.index Store.next_pow2 Store.double_loop Store.per_shard total size_of
    approx_size Shard.new_shard Shard.set Shard.store Shard.set_locked Shard.emit
    Shard.enforce_limits Shard.over_capacity Shard.evict_loop Shard.emit_dels lookup insert
    Bytes-discrete ℕ_discrete wrap ◌+ℤ◌
counts_two = refl

stats-items_below_example :
    ((stats two_full).1 ≡ pos (length (items_below two_full.count two_full)))
    × ((stats two_full).2 ≡ pos (total size_of (items_below two_full.count two_full)))
unfolding items_below run growth new_cache Store.set_ttl Store.put_shard Store.shard_for Store.index
    Store.next_pow2 Store.double_loop Store.per_shard total size_of approx_size Shard.new_shard
    Shard.set Shard.store Shard.set_locked Shard.emit Shard.enforce_limits Shard.over_capacity
    Shard.evict_loop Shard.emit_dels lookup insert Bytes-discrete ℕ_discrete wrap ◌+ℤ◌
stats-items_below_example = stats-items_below first_byte two_full two_full-Reached (omega arith)
