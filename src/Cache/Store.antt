-- ===== src/Cache/Store.antt =====
-- cache.go: the cache over its shards. The array of the shards is a function of their indices
-- below `count`. The seeded hash of the Go library and the clock's readings are arguments. The
-- goroutine that numbers the events and hands them to the subscribers is in Cache/Dispatch: what a
-- shard sends is in its `emitted`.
pub mod Routing
pub mod Apply
pub mod Reached
pub mod Totals
use dist_cache.Base.{
  ℕ, zero, suc, ◌+◌, ◌*◌, ◌/◌, ◌%◌, ◌^◌, Bool, true, false, not, ◌&&◌, Option, none, some, List, [],
  ◌∷◌, ◌++◌, length, Bytes, same, bytes_eq, if◌then◌else◌, ltb, leb, ◌==◌,
}
use dist_cache.Base.Int64.{ℤ, pos, negsuc, pos_part, ltz, lez, is_zero, ◌+ℤ◌, ◌-ℤ◌}
use dist_cache.Cache.Item.{Item, Event, op_set, op_del, op_expire, op_flush}
use dist_cache.Cache.Shard
use dist_cache.Cache.Shard.{Shard}
use dist_cache.Eviction.Policy.{Policy}

-- `for p < n { p <<= 1 }`, with fuel for its rounds. For an `n` above 2^62 the loop does not end,
-- since the int64 `p` passes from 2^62 to negative and then to 0; the fuel does.
unfoldable pub double_loop : ℕ → ℕ → ℕ → ℕ
double_loop zero n p = p
double_loop (suc fuel) n p = elim (ltb p n) [ true ↦ double_loop fuel n (p * 2) | false ↦ p ]

-- An int64 has at most 62 doublings of 1.
unfoldable pub next_pow2 : ℕ → ℕ
next_pow2 n = if ltb n 1 then 1 else double_loop 63 n 1

-- The six counters.
pub record Counters : Type 0 where
  pub hits : ℕ
  pub misses : ℕ
  pub sets : ℕ
  pub dels : ℕ
  pub evictions : ℕ
  pub expirations : ℕ

-- `atomic.AddUint64`.
abbrev pub up : ℕ → ℕ → ℕ
up n k = (n + k) % 2 ^ 64

abbrev pub no_counts : Counters
no_counts = record { hits = 0; misses = 0; sets = 0; dels = 0; evictions = 0; expirations = 0 }

pub record Cache (p : Policy) : Type 0 where
  pub count : ℕ
  pub shard : ℕ → Shard p
  pub counters : Counters

-- `if n := len(evicted); n > 0 { … }`
abbrev pub add_evictions : List Bytes → Counters → Counters
add_evictions ks n = record n { evictions = up n.evictions (length ks) }

-- `if expiredKey != "" { … }`
abbrev pub add_expired : Bytes → Counters → Counters
add_expired k n = if same k [] then n else record n { expirations = up n.expirations 1 }

-- The share of a limit that a shard gets; no limit is 0.
unfoldable pub per_shard : ℤ → ℕ → ℤ
per_shard limit shards =
    if ltz (pos 0) limit
    then (let each = pos_part limit / shards in if ltb each 1 then pos 1 else pos each)
    else pos 0

-- `withDefaults`, of the number of the shards.
abbrev pub default_shards : ℤ → ℕ
default_shards shards = if lez shards (pos 0) then 256 else pos_part shards

module _ (p : Policy) where
  -- `New`, for a policy at hand.
  unfoldable pub new_cache : ℤ → ℤ → ℤ → Cache p
  unfolding next_pow2 per_shard
  new_cache shards max_entries max_memory =
      let n = next_pow2 (default_shards shards) in
      record {
        count = n;
        shard = λ i. Shard.new_shard p (per_shard max_entries n) (per_shard max_memory n) true;
        counters = no_counts;
      }

module _ (hash : Bytes → ℕ) {p : Policy} where
  -- `h & mask`, for a power of two less one.
  unfoldable pub index : Bytes → Cache p → ℕ
  index key c = hash key % c.count

  unfoldable pub shard_for : Bytes → Cache p → Shard p
  unfolding index
  shard_for key c = c.shard (index key c)

  unfoldable pub put_shard : Bytes → Shard p → Cache p → Cache p
  unfolding index
  put_shard key s c =
      let i = index key c in record c { shard = λ j. if j == i then s else c.shard j }

  unfoldable pub set_ttl : Bytes → Bytes → ℤ → ℤ → Cache p → Cache p
  unfolding shard_for put_shard
  set_ttl key value ttl now c =
      let expire_at = (if ltz (pos 0) ttl then now +ℤ ttl else pos 0) in
      let (s, evicted) = Shard.set p key value expire_at (shard_for key c) in
      let n = record c.counters { sets = up c.counters.sets 1 } in
      record (put_shard key s c) { counters = add_evictions evicted n }

  unfoldable pub set : Bytes → Bytes → ℤ → Cache p → Cache p
  unfolding set_ttl
  set key value now c = set_ttl key value (pos 0) now c

  unfoldable pub get : Bytes → ℤ → Cache p → Cache p × Bytes × Bool
  unfolding shard_for put_shard
  get key now c =
      let (s, val, found, expired_key) = Shard.get p key now (shard_for key c) in
      let n = add_expired expired_key c.counters in
      let n' =
        (if found then record n { hits = up n.hits 1 } else record n { misses = up n.misses 1 }) in
      (record (put_shard key s c) { counters = n' }, val, found)

  unfoldable pub delete : Bytes → Cache p → Cache p × Bool
  unfolding shard_for put_shard
  delete key c =
      let (s, ok) = Shard.del p key (shard_for key c) in
      let n = (if ok then record c.counters { dels = up c.counters.dels 1 } else c.counters) in
      (record (put_shard key s c) { counters = n }, ok)

  unfoldable pub exists : Bytes → ℤ → Cache p → Cache p × Bool
  unfolding shard_for put_shard
  exists key now c =
      let (s, ok, expired_key) = Shard.exists p key now (shard_for key c) in
      (record (put_shard key s c) { counters = add_expired expired_key c.counters }, ok)

  unfoldable pub incr_by : Bytes → ℤ → ℤ → Cache p → Cache p × Option ℤ
  unfolding shard_for put_shard
  incr_by key delta now c =
      let (s, r) = Shard.incr_by p key delta now (shard_for key c) in
      elim r [
        | none ↦ (put_shard key s c, none)
        | some (v, evicted) ↦
            let n = record c.counters { sets = up c.counters.sets 1 } in
            (record (put_shard key s c) { counters = add_evictions evicted n }, some v)
      ]

  unfoldable pub incr : Bytes → ℤ → Cache p → Cache p × Option ℤ
  unfolding incr_by
  incr key now c = incr_by key (pos 1) now c

  unfoldable pub decr : Bytes → ℤ → Cache p → Cache p × Option ℤ
  unfolding incr_by
  decr key now c = incr_by key (negsuc 0) now c

  unfoldable pub decr_by : Bytes → ℤ → ℤ → Cache p → Cache p × Option ℤ
  unfolding incr_by
  decr_by key delta now c = incr_by key (pos 0 -ℤ delta) now c

  -- The clock is read once more for the shard.
  unfoldable pub expire : Bytes → ℤ → ℤ → ℤ → Cache p → Cache p × Bool
  unfolding shard_for put_shard
  expire key ttl now now' c =
      let expire_at = (if ltz (pos 0) ttl then now +ℤ ttl else pos 0) in
      let (s, ok, expired_key) = Shard.expire p key expire_at now' (shard_for key c) in
      (record (put_shard key s c) { counters = add_expired expired_key c.counters }, ok)

  -- What remains, whether the key was found, and whether it persists.
  unfoldable pub ttl : Bytes → ℤ → Cache p → Cache p × ℤ × Bool × Bool
  unfolding shard_for put_shard
  ttl key now c =
      let (s, expire_at, ok, expired_key) = Shard.ttl p key now (shard_for key c) in
      let c' = record (put_shard key s c) { counters = add_expired expired_key c.counters } in
      if not ok
      then (c', pos 0, false, false)
      else if is_zero expire_at
      then (c', pos 0, true, true)
      else (c', expire_at -ℤ now, true, false)

  -- The pairs with their times to live, and what the clock gives for each.
  unfoldable pub mset : List (Bytes × Bytes × ℤ × ℤ) → Cache p → Cache p
  unfolding set_ttl
  mset [] c = c
  mset ((key, value, ttl, now) ∷ pairs) c = mset pairs (set_ttl key value ttl now c)

  unfoldable pub mget : List (Bytes × ℤ) → Cache p → Cache p × List (Bytes × Bool)
  unfolding get
  mget [] c = (c, [])
  mget ((key, now) ∷ keys) c =
      let r = get key now c in let rest = mget keys r.0 in (rest.0, (r.1, r.2) ∷ rest.1)

  -- The effect of one event, on the shard of its key or, for a flush, on every shard.
  unfoldable pub apply_event : Event → Cache p → Cache p
  unfolding shard_for put_shard
  apply_event ev c =
      let s = shard_for ev.key c in
      if ev.op == op_set
      then put_shard ev.key (Shard.apply_set p ev.key ev.value ev.expire_at s) c
      else if ev.op == op_del
      then put_shard ev.key (Shard.apply_del p ev.key s) c
      else if ev.op == op_expire
      then put_shard ev.key (Shard.apply_expire p ev.key ev.expire_at s) c
      else if ev.op == op_flush
      then record c { shard = λ i. Shard.flush_silent p (c.shard i) }
      else c

module _ {p : Policy} where
  unfoldable pub flush_all : Cache p → Cache p
  flush_all c = record c { shard = λ i. Shard.flush p (c.shard i) }

  -- The loops over the shards, for the first `n` of them.
  unfoldable pub keys_below : ℕ → ℤ → Cache p → List Bytes
  keys_below zero now c = []
  keys_below (suc n) now c = keys_below n now c ++ Shard.keys p now (c.shard n)

  unfoldable pub keys : ℤ → Cache p → List Bytes
  unfolding keys_below
  keys now c = keys_below c.count now c

  unfoldable pub len_below : ℕ → Cache p → ℕ
  len_below zero c = 0
  len_below (suc n) c = len_below n c + Shard.len p (c.shard n)

  unfoldable pub len : Cache p → ℕ
  unfolding len_below
  len c = len_below c.count c

  unfoldable pub export_below : ℕ → ℤ → Cache p → List (Bytes × Item)
  export_below zero now c = []
  export_below (suc n) now c = export_below n now c ++ Shard.export p now (c.shard n)

  unfoldable pub export : ℤ → Cache p → List (Bytes × Item)
  unfolding export_below
  export now c = export_below c.count now c

  -- A tick of `activeExpiry`.
  unfoldable pub sweep_below : ℕ → ℤ → Cache p → Cache p
  sweep_below zero now c = c
  sweep_below (suc n) now c =
      let c' = sweep_below n now c in
      let (s, ks) = Shard.sweep_expired p now 32 (c'.shard n) in
      record c' {
        shard = λ j. if j == n then s else c'.shard j;
        counters = record c'.counters { expirations = up c'.counters.expirations (length ks) };
      }

  unfoldable pub sweep : ℤ → Cache p → Cache p
  unfolding sweep_below
  sweep now c = sweep_below c.count now c

  unfoldable pub mem_below : ℕ → Cache p → ℤ
  mem_below zero c = pos 0
  mem_below (suc n) c = mem_below n c +ℤ Shard.mem_bytes p (c.shard n)

  -- The counters, the number of the keys and the memory.
  unfoldable pub stats : Cache p → Counters × ℤ × ℤ
  unfolding len_below mem_below
  stats c = (c.counters, pos (len_below c.count c), mem_below c.count c)
