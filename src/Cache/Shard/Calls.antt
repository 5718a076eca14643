-- ===== src/Cache/Shard/Calls.antt =====
-- The methods of a shard as one type of calls, so that what holds after any run of calls can be
-- stated.
use dist_cache.Base.{ℕ, ◌+◌, length, Bytes}
use dist_cache.Base.Int64.{ℤ}
use dist_cache.Cache.Item.{approx_size}
use dist_cache.Cache.Shard
use dist_cache.Cache.Shard.{Shard}
use dist_cache.Eviction.Policy.{Policy}

pub data Call : Type 0 where
  get : Bytes → ℤ → Call
  set : Bytes → Bytes → ℤ → Call
  del : Bytes → Call
  exists : Bytes → ℤ → Call
  expire : Bytes → ℤ → ℤ → Call
  ttl : Bytes → ℤ → Call
  incr_by : Bytes → ℤ → ℤ → Call
  flush : Call
  sweep_expired : ℤ → ℕ → Call
  apply_set : Bytes → Bytes → ℤ → Call
  apply_del : Bytes → Call
  apply_expire : Bytes → ℤ → Call
  flush_silent : Call

module _ (p : Policy) where
  unfoldable pub run : Call → Shard p → Shard p
  run (get k now) s = (Shard.get p k now s).0
  run (set k v e) s = (Shard.set p k v e s).0
  run (del k) s = (Shard.del p k s).0
  run (exists k now) s = (Shard.exists p k now s).0
  run (expire k e now) s = (Shard.expire p k e now s).0
  run (ttl k now) s = (Shard.ttl p k now s).0
  run (incr_by k d now) s = (Shard.incr_by p k d now s).0
  run flush s = Shard.flush p s
  run (sweep_expired now n) s = (Shard.sweep_expired p now n s).0
  run (apply_set k v e) s = Shard.apply_set p k v e s
  run (apply_del k) s = Shard.apply_del p k s
  run (apply_expire k e) s = Shard.apply_expire p k e s
  run flush_silent s = Shard.flush_silent p s

-- The most that a call can add to the sizes of the items: a formatted integer has at most 21
-- bytes.
unfoldable pub growth : Call → ℕ
growth (set k v e) = approx_size k v
growth (apply_set k v e) = approx_size k v
growth (incr_by k d now) = length k + 21 + 64
growth _ = 0
