-- ===== src/Cache/Store/Reached.antt =====
-- cache.go: the caches that runs of the methods reach from a new one, and the memory counters of
-- their shards.
use dist_cache.Base.{
  ℕ, zero, suc, ◌+◌, ◌^◌, ◌<◌, refl, length, arith, Bytes, bytes_eq, Option-cases, Bool-cases, inl,
  inr, ◌==◌,
}
use dist_cache.Base.Assoc.{total}
use dist_cache.Base.Int64.{ℤ, is_zero}
use dist_cache.Cache.Item.{Event, approx_size, op_set, op_del, op_expire, op_flush}
use dist_cache.Cache.Shard
use dist_cache.Cache.Shard.{Shard}
use dist_cache.Cache.Shard.Accounting.{size_of, IsAccounted}
use dist_cache.Cache.Shard.Calls
use dist_cache.Cache.Shard.Memory.{run-IsAccounted}
use dist_cache.Cache.Store
use dist_cache.Cache.Store.{Cache, index, shard_for, put_shard, new_cache, per_shard, sweep_below}
use dist_cache.Eviction.Policy.{Policy}

-- The methods that change a cache; `Set`, `Incr`, `Decr`, `MSet` and `MGet` are made of these.
pub data Call : Type 0 where
  set_ttl : Bytes → Bytes → ℤ → ℤ → Call
  get : Bytes → ℤ → Call
  delete : Bytes → Call
  exists : Bytes → ℤ → Call
  incr_by : Bytes → ℤ → ℤ → Call
  expire : Bytes → ℤ → ℤ → ℤ → Call
  ttl : Bytes → ℤ → Call
  flush_all : Call
  sweep : ℤ → Call
  apply_event : Event → Call

-- The most that a call can add to the sizes of the items of a shard.
unfoldable pub growth : Call → ℕ
growth (set_ttl k v t now) = approx_size k v
growth (incr_by k d now) = length k + 21 + 64
growth (apply_event ev) = approx_size ev.key ev.value
growth _ = 0

module _ (hash : Bytes → ℕ) {p : Policy} where
  unfoldable pub run : Call → Cache p → Cache p
  run (set_ttl k v t now) c = Store.set_ttl hash k v t now c
  run (get k now) c = (Store.get hash k now c).0
  run (delete k) c = (Store.delete hash k c).0
  run (exists k now) c = (Store.exists hash k now c).0
  run (incr_by k d now) c = (Store.incr_by hash k d now c).0
  run (expire k t now now') c = (Store.expire hash k t now now' c).0
  run (ttl k now) c = (Store.ttl hash k now c).0
  run flush_all c = Store.flush_all c
  run (sweep now) c = Store.sweep now c
  run (apply_event ev) c = Store.apply_event hash ev c

  -- The caches reached while no shard's items can come to take 2^63 bytes.
  pub data Reached : Cache p → Type 0 where
    made : (shards max_entries max_memory : ℤ) → Reached (new_cache p shards max_entries max_memory)
    called :
        {c : Cache p} (call : Call)
        → Reached c
        → ((i : ℕ) → total size_of (c.shard i).items + growth call < 2 ^ 63)
        → Reached (run call c)

  abbrev pub AllAccounted : Cache p → Type 0
  AllAccounted c = (i : ℕ) → IsAccounted (c.shard i)

  put_shard-AllAccounted :
      (k : Bytes) (s : Shard p) (c : Cache p)
      → AllAccounted c
      → IsAccounted s
      → AllAccounted (put_shard hash k s c)
  unfolding put_shard
  put_shard-AllAccounted k s c a h i = elim (Bool-cases (i == index hash k c)) [
    | inl e ↦ rw (put_shard, e) h
    | inr e ↦ rw (put_shard, e) (a i)
  ]

  -- A method that is one of its shard's.
  on_shard-AllAccounted :
      (k : Bytes) (sc : Calls.Call) (c : Cache p)
      → AllAccounted c
      → ((i : ℕ) → total size_of (c.shard i).items + Calls.growth sc < 2 ^ 63)
      → AllAccounted (put_shard hash k (Calls.run p sc (shard_for hash k c)) c)
  unfolding shard_for
  on_shard-AllAccounted k sc c a fit =
      put_shard-AllAccounted k _ c a
        (run-IsAccounted sc (shard_for hash k c) (a (index hash k c)) (fit (index hash k c)))

  sweep_below-AllAccounted :
      (n : ℕ) (now : ℤ) (c : Cache p) → AllAccounted c → AllAccounted (sweep_below n now c)
  unfolding sweep_below Calls.run Calls.growth
  sweep_below-AllAccounted zero now c a i = a i
  sweep_below-AllAccounted (suc n) now c a i =
      let rest = sweep_below-AllAccounted n now c a in
      elim (Bool-cases (i == n)) [
        | inl e ↦
            rw (sweep_below, e)
              (run-IsAccounted (Calls.sweep_expired now 32) ((sweep_below n now c).shard n) (rest n)
                (omega (arith, (rest n).fits)))
        | inr e ↦ rw (sweep_below, e) (rest i)
      ]

  apply_event-AllAccounted :
      (ev : Event) (c : Cache p)
      → AllAccounted c
      → ((i : ℕ) → total size_of (c.shard i).items + growth (apply_event ev) < 2 ^ 63)
      → AllAccounted (Store.apply_event hash ev c)
  unfolding Store.apply_event growth Calls.run Calls.growth
  apply_event-AllAccounted ev c a fit = elim (Bool-cases (ev.op == op_set)) [
    | inl e ↦
        rw (Store.apply_event, e)
          (on_shard-AllAccounted ev.key (Calls.apply_set ev.key ev.value ev.expire_at) c a fit)
    | inr e ↦ elim (Bool-cases (ev.op == op_del)) [
      | inl f ↦
          rw (Store.apply_event, e, f)
            (on_shard-AllAccounted ev.key (Calls.apply_del ev.key) c a
              (λ i. omega (arith, (a i).fits)))
      | inr f ↦ elim (Bool-cases (ev.op == op_expire)) [
        | inl g ↦
            rw (Store.apply_event, e, f, g)
              (on_shard-AllAccounted ev.key (Calls.apply_expire ev.key ev.expire_at) c a
                (λ i. omega (arith, (a i).fits)))
        | inr g ↦ elim (Bool-cases (ev.op == op_flush)) [
          | inl h ↦
              rw (Store.apply_event, e, f, g, h)
                (λ i.
                  run-IsAccounted Calls.flush_silent (c.shard i) (a i) (omega (arith, (a i).fits)))
          | inr h ↦ rw (Store.apply_event, e, f, g, h) a
        ]
      ]
    ]
  ]

  incr_by-AllAccounted :
      (k : Bytes) (d now : ℤ) (c : Cache p)
      → AllAccounted c
      → ((i : ℕ) → total size_of (c.shard i).items + (length k + 21 + 64) < 2 ^ 63)
      → AllAccounted (Store.incr_by hash k d now c).0
  unfolding Store.incr_by Calls.run Calls.growth
  incr_by-AllAccounted k d now c a fit =
      let kept = on_shard-AllAccounted k (Calls.incr_by k d now) c a fit in
      elim (Option-cases (Shard.incr_by p k d now (shard_for hash k c)).1) [
        | inl e ↦ rw (Store.incr_by, e) kept
        | inr (r, e) ↦ rw (Store.incr_by, e) kept
      ]

  ttl-AllAccounted :
      (k : Bytes) (now : ℤ) (c : Cache p) → AllAccounted c → AllAccounted (Store.ttl hash k now c).0
  unfolding Store.ttl Calls.run Calls.growth
  ttl-AllAccounted k now c a =
      let kept = on_shard-AllAccounted k (Calls.ttl k now) c a (λ i. omega (arith, (a i).fits)) in
      let answer = Shard.ttl p k now (shard_for hash k c) in
      elim (Bool-cases answer.2) [
        | inr e ↦ rw (Store.ttl, e) kept
        | inl e ↦ elim (Bool-cases (is_zero answer.1)) [
          | inl z ↦ rw (Store.ttl, e, z) kept
          | inr z ↦ rw (Store.ttl, e, z) kept
        ]
      ]

  run-AllAccounted :
      (call : Call) (c : Cache p)
      → AllAccounted c
      → ((i : ℕ) → total size_of (c.shard i).items + growth call < 2 ^ 63)
      → AllAccounted (run call c)
  unfolding run growth Calls.run Calls.growth
  run-AllAccounted (set_ttl k v t now) c a fit =
      unfold Store.set_ttl in on_shard-AllAccounted k (Calls.set k v _) c a fit
  run-AllAccounted (get k now) c a fit =
      unfold Store.get in on_shard-AllAccounted k (Calls.get k now) c a fit
  run-AllAccounted (delete k) c a fit =
      unfold Store.delete in on_shard-AllAccounted k (Calls.del k) c a fit
  run-AllAccounted (exists k now) c a fit =
      unfold Store.exists in on_shard-AllAccounted k (Calls.exists k now) c a fit
  run-AllAccounted (incr_by k d now) c a fit = incr_by-AllAccounted k d now c a fit
  run-AllAccounted (expire k t now now') c a fit =
      unfold Store.expire in on_shard-AllAccounted k (Calls.expire k _ now') c a fit
  run-AllAccounted (ttl k now) c a fit = ttl-AllAccounted k now c a
  run-AllAccounted flush_all c a fit =
      unfold Store.flush_all in λ i. run-IsAccounted Calls.flush (c.shard i) (a i) (fit i)
  run-AllAccounted (sweep now) c a fit =
      unfold Store.sweep in sweep_below-AllAccounted c.count now c a
  run-AllAccounted (apply_event ev) c a fit = apply_event-AllAccounted ev c a fit

  pub Reached-AllAccounted : {c : Cache p} → Reached c → AllAccounted c
  unfolding new_cache Shard.new_shard total
  Reached-AllAccounted (made shards max_entries max_memory) =
      λ i. record { distinct = tt; account = refl; fits = omega arith }
  Reached-AllAccounted (called call r fit) = run-AllAccounted call _ (Reached-AllAccounted r) fit
