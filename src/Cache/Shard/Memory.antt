-- ===== src/Cache/Shard/Memory.antt =====
-- Every method of shard.go keeps the memory counter exact.
use dist_cache.Base.{
  ℕ, zero, suc, ◌+◌, ◌^◌, ◌≤◌, ◌<◌, ◌≡◌, refl, some, List, [], ◌∷◌, ◌++◌, length, arith, Bytes,
  bytes_eq, Option-cases, Bool-cases, inl, inr,
}
use dist_cache.Base.Assoc.{Distinct, lookup-erase, Assoc, lookup, total}
use dist_cache.Base.Decimal.{format_int}
use dist_cache.Base.Decimal.Laws.{length-format_int-le}
use dist_cache.Base.Int64.{ℤ, pos, ◌+ℤ◌}
use dist_cache.Cache.Item.{Item, expired, approx_size, flush_event}
use dist_cache.Cache.Shard
use dist_cache.Cache.Shard.{
  Shard, emit, remove_locked, set_locked, emit_dels, enforce_limits, drop_item, store, incr_base,
  forget_all, sweep_loop,
}
use dist_cache.Cache.Shard.Accounting.{
  size_of, IsAccounted, remove_locked-IsAccounted, remove_locked-le, set_locked-IsAccounted,
  emit-IsAccounted, enforce_limits-IsAccounted,
}
use dist_cache.Eviction.Policy.{Policy}
use dist_cache.Cache.Shard.Calls.{
  Call, get, set, del, exists, expire, ttl, incr_by, flush, sweep_expired, apply_set, apply_del,
  apply_expire, flush_silent, run, growth,
}
use dist_cache.Cache.Shard.Methods.{
  drop_item-IsAccounted, store-IsAccounted, get-IsAccounted, del-IsAccounted, exists-IsAccounted,
  ttl-IsAccounted, expire-IsAccounted, apply_expire-IsAccounted, apply_del-IsAccounted,
}

module _ {p : Policy} where
  incr_base-IsAccounted :
      (s : Shard p) (k : Bytes) (now : ℤ)
      → IsAccounted s
      → IsAccounted (incr_base p k now s).0
        × (total size_of (incr_base p k now s).0.items ≤ total size_of s.items)
  unfolding incr_base
  incr_base-IsAccounted s k now v = elim (Option-cases (lookup k s.items)) [
    | inl h ↦ rw (h, incr_base) (v, omega arith)
    | inr (it, h) ↦ elim (Bool-cases (expired it now)) [
      | inl old ↦
          rw (h, old, incr_base) (remove_locked-IsAccounted s v k it h, remove_locked-le s v k it h)
      | inr live ↦ rw (h, live, incr_base) (v, omega arith)
    ]
  ]

  incr_by-IsAccounted :
      (s : Shard p) (k : Bytes) (d now : ℤ)
      → IsAccounted s
      → total size_of s.items + (length k + 21 + 64) < 2 ^ 63
      → IsAccounted (Shard.incr_by p k d now s).0
  unfolding Shard.incr_by approx_size
  incr_by-IsAccounted s k d now v fit =
      let (v', shrunk) = incr_base-IsAccounted s k now v in
      elim (Option-cases (incr_base p k now s).1) [
        | inl h ↦ rw (h, Shard.incr_by) v'
        | inr (b, h) ↦
            rw (h, Shard.incr_by)
              (store-IsAccounted (incr_base p k now s).0 k (format_int (b +ℤ d)) (pos 0) v'
                (unfold approx_size in omega (arith, length-format_int-le (b +ℤ d), shrunk)))
      ]

  flush_silent-IsAccounted : (s : Shard p) → IsAccounted (Shard.flush_silent p s)
  unfolding Shard.flush_silent total
  flush_silent-IsAccounted s = record { distinct = tt; account = refl; fits = omega arith }

  -- The items that the loop has still to see are items of the shard.
  sweep_loop-IsAccounted :
      (now : ℤ) (n : ℕ) (m : Assoc Bytes Item) (s : Shard p) (ks : List Bytes)
      → Distinct m
      → ((j : Bytes) (it : Item) → lookup j m ≡ some it → lookup j s.items ≡ some it)
      → IsAccounted s
      → IsAccounted (sweep_loop p now n m s ks).0
  unfolding sweep_loop
  sweep_loop-IsAccounted now zero m s ks u sub v = v
  sweep_loop-IsAccounted now (suc n) [] s ks u sub v = v
  sweep_loop-IsAccounted now (suc n) ((k, it) ∷ m) s ks u sub v =
      elim (Bool-cases (expired it now)) [
        | inl old ↦
            rw (old, sweep_loop)
              (sweep_loop-IsAccounted now n m (drop_item p k it s) (ks ++ k ∷ []) u.1
                (λ j i h.
                  unfold lookup drop_item emit remove_locked in
                  ground (arith, sub j i, u.0, lookup-erase k j s.items))
                (drop_item-IsAccounted s k it v (sub k it (unfold lookup in ground arith))))
        | inr live ↦
            rw (live, sweep_loop)
              (sweep_loop-IsAccounted now n m s ks u.1
                (λ j i h. unfold lookup in ground (arith, sub j i, u.0)) v)
      ]

  -- When the counter is the exact sum of the items' sizes, each key is bound once, and the sum and
  -- the most that the call can add are below 2^63, then after any call of the shard's methods the
  -- counter is again exact and each key bound once.
  pub run-IsAccounted :
      (c : Call) (s : Shard p)
      → IsAccounted s
      → total size_of s.items + growth c < 2 ^ 63
      → IsAccounted (run p c s)
  unfolding run growth
  run-IsAccounted (get k now) s v fit = get-IsAccounted s k now v
  run-IsAccounted (set k x e) s v fit = unfold Shard.set in store-IsAccounted s k x e v fit
  run-IsAccounted (del k) s v fit = del-IsAccounted s k v
  run-IsAccounted (exists k now) s v fit = exists-IsAccounted s k now v
  run-IsAccounted (expire k e now) s v fit = expire-IsAccounted s k e now v
  run-IsAccounted (ttl k now) s v fit = ttl-IsAccounted s k now v
  run-IsAccounted (incr_by k d now) s v fit = incr_by-IsAccounted s k d now v fit
  run-IsAccounted flush s v fit =
      unfold Shard.flush in emit-IsAccounted flush_event _ (flush_silent-IsAccounted s)
  run-IsAccounted (sweep_expired now n) s v fit =
      unfold Shard.sweep_expired in
      sweep_loop-IsAccounted now n s.items s [] v.distinct (λ j it h. h) v
  run-IsAccounted (apply_set k x e) s v fit =
      unfold Shard.apply_set in
      enforce_limits-IsAccounted k _ (set_locked-IsAccounted s v k x e fit)
  run-IsAccounted (apply_del k) s v fit = apply_del-IsAccounted s k v
  run-IsAccounted (apply_expire k e) s v fit = apply_expire-IsAccounted s k e v
  run-IsAccounted flush_silent s v fit = flush_silent-IsAccounted s
