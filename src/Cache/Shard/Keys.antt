-- ===== src/Cache/Shard/Keys.antt =====
-- Every method of shard.go keeps a tracking policy and the items in step.
use dist_cache.Base.{
  ℕ, zero, suc, ◌≡◌, refl, false, List, [], ◌∷◌, ◌++◌, arith, Bytes, bytes_eq, Option-cases,
  Bool-cases, inl, inr, if◌then◌else◌,
}
use dist_cache.Base.Assoc.{Assoc, lookup}
use dist_cache.Base.Decimal.{format_int}
use dist_cache.Base.Int64.{ℤ, pos, ◌+ℤ◌}
use dist_cache.Cache.Item.{Item, expired, flush_event, expire_event}
use dist_cache.Cache.Shard
use dist_cache.Cache.Shard.{Shard, drop_item, incr_base, sweep_loop, forget_all}
use dist_cache.Cache.Shard.Calls.{
  Call, get, set, del, exists, expire, ttl, incr_by, flush, sweep_expired, apply_set, apply_del,
  apply_expire, flush_silent, run,
}
use dist_cache.Cache.Shard.InStep.{
  IsInStep, is_some, emit-IsInStep, remove_locked-IsInStep, drop_item-IsInStep, access-IsInStep,
  re_timed-IsInStep, set_locked-IsInStep, enforce_limits-IsInStep, store-IsInStep,
}
use dist_cache.Eviction.Policy.{Policy, Tracking}

module _ {p : Policy} (t : Tracking p) where
  forget_all-holds :
      (m : Assoc Bytes Item) (st : p.State)
      → t.IsValid st
      → t.IsValid (forget_all p m st)
        × ((j : Bytes)
            → t.holds (forget_all p m st) j
              ≡ (if is_some (lookup j m) then false else t.holds st j))
  unfolding forget_all lookup
  forget_all-holds [] st v = (v, λ j. refl)
  forget_all-holds ((k, it) ∷ m) st v =
      let (v', h) = forget_all-holds m (p.remove st k) (t.remove-IsValid st k v) in
      (v', λ j. ground (arith, h j, t.holds-remove st k j v))

  get-IsInStep :
      (k : Bytes) (now : ℤ) (s : Shard p) → IsInStep t s → IsInStep t (Shard.get p k now s).0
  unfolding Shard.get
  get-IsInStep k now s v = elim (Option-cases (lookup k s.items)) [
    | inl e ↦ rw (e, Shard.get) v
    | inr (it, e) ↦ elim (Bool-cases (expired it now)) [
      | inl old ↦ rw (e, old, Shard.get) (drop_item-IsInStep t k it s v)
      | inr live ↦ rw (e, live, Shard.get) (access-IsInStep t k s v)
    ]
  ]

  del-IsInStep : (k : Bytes) (s : Shard p) → IsInStep t s → IsInStep t (Shard.del p k s).0
  unfolding Shard.del
  del-IsInStep k s v = elim (Option-cases (lookup k s.items)) [
    | inl e ↦ rw (e, Shard.del) v
    | inr (it, e) ↦ rw (e, Shard.del) (drop_item-IsInStep t k it s v)
  ]

  exists-IsInStep :
      (k : Bytes) (now : ℤ) (s : Shard p) → IsInStep t s → IsInStep t (Shard.exists p k now s).0
  unfolding Shard.exists
  exists-IsInStep k now s v = elim (Option-cases (lookup k s.items)) [
    | inl e ↦ rw (e, Shard.exists) v
    | inr (it, e) ↦ elim (Bool-cases (expired it now)) [
      | inl old ↦ rw (e, old, Shard.exists) (drop_item-IsInStep t k it s v)
      | inr live ↦ rw (e, live, Shard.exists) v
    ]
  ]

  ttl-IsInStep :
      (k : Bytes) (now : ℤ) (s : Shard p) → IsInStep t s → IsInStep t (Shard.ttl p k now s).0
  unfolding Shard.ttl
  ttl-IsInStep k now s v = elim (Option-cases (lookup k s.items)) [
    | inl e ↦ rw (e, Shard.ttl) v
    | inr (it, e) ↦ elim (Bool-cases (expired it now)) [
      | inl old ↦ rw (e, old, Shard.ttl) (drop_item-IsInStep t k it s v)
      | inr live ↦ rw (e, live, Shard.ttl) v
    ]
  ]

  expire-IsInStep :
      (k : Bytes) (e now : ℤ) (s : Shard p) → IsInStep t s → IsInStep t (Shard.expire p k e now s).0
  unfolding Shard.expire
  expire-IsInStep k e now s v = elim (Option-cases (lookup k s.items)) [
    | inl h ↦ rw (h, Shard.expire) v
    | inr (it, h) ↦ elim (Bool-cases (expired it now)) [
      | inl old ↦ rw (h, old, Shard.expire) (drop_item-IsInStep t k it s v)
      | inr live ↦
          rw (h, live, Shard.expire)
            (emit-IsInStep t (expire_event k e) _ (re_timed-IsInStep t k e _ it s v h))
    ]
  ]

  apply_expire-IsInStep :
      (k : Bytes) (e : ℤ) (s : Shard p) → IsInStep t s → IsInStep t (Shard.apply_expire p k e s)
  unfolding Shard.apply_expire
  apply_expire-IsInStep k e s v = elim (Option-cases (lookup k s.items)) [
    | inl h ↦ rw (h, Shard.apply_expire) v
    | inr (it, h) ↦ rw (h, Shard.apply_expire) (re_timed-IsInStep t k e _ it s v h)
  ]

  apply_del-IsInStep : (k : Bytes) (s : Shard p) → IsInStep t s → IsInStep t (Shard.apply_del p k s)
  unfolding Shard.apply_del
  apply_del-IsInStep k s v = elim (Option-cases (lookup k s.items)) [
    | inl h ↦ rw (h, Shard.apply_del) v
    | inr (it, h) ↦ rw (h, Shard.apply_del) (remove_locked-IsInStep t k it s v)
  ]

  incr_base-IsInStep :
      (k : Bytes) (now : ℤ) (s : Shard p) → IsInStep t s → IsInStep t (incr_base p k now s).0
  unfolding incr_base
  incr_base-IsInStep k now s v = elim (Option-cases (lookup k s.items)) [
    | inl h ↦ rw (h, incr_base) v
    | inr (it, h) ↦ elim (Bool-cases (expired it now)) [
      | inl old ↦ rw (h, old, incr_base) (remove_locked-IsInStep t k it s v)
      | inr live ↦ rw (h, live, incr_base) v
    ]
  ]

  incr_by-IsInStep :
      (k : Bytes) (d now : ℤ) (s : Shard p)
      → IsInStep t s
      → IsInStep t (Shard.incr_by p k d now s).0
  unfolding Shard.incr_by
  incr_by-IsInStep k d now s v = elim (Option-cases (incr_base p k now s).1) [
    | inl h ↦ rw (h, Shard.incr_by) (incr_base-IsInStep k now s v)
    | inr (b, h) ↦
        rw (h, Shard.incr_by)
          (store-IsInStep t k (format_int (b +ℤ d)) (pos 0) _ (incr_base-IsInStep k now s v))
  ]

  flush_silent-IsInStep : (s : Shard p) → IsInStep t s → IsInStep t (Shard.flush_silent p s)
  unfolding Shard.flush_silent lookup
  flush_silent-IsInStep s v =
      let (v', h) = forget_all-holds s.items s.policy v.tracked in
      record { tracked = v'; in_step = λ j. ground (arith, h j, v.in_step j) }

  sweep_loop-IsInStep :
      (now : ℤ) (n : ℕ) (m : Assoc Bytes Item) (s : Shard p) (ks : List Bytes)
      → IsInStep t s
      → IsInStep t (sweep_loop p now n m s ks).0
  unfolding sweep_loop
  sweep_loop-IsInStep now zero m s ks v = v
  sweep_loop-IsInStep now (suc n) [] s ks v = v
  sweep_loop-IsInStep now (suc n) ((k, it) ∷ m) s ks v = elim (Bool-cases (expired it now)) [
    | inl old ↦
        rw (old, sweep_loop)
          (sweep_loop-IsInStep now n m (drop_item p k it s) (ks ++ k ∷ [])
            (drop_item-IsInStep t k it s v))
    | inr live ↦ rw (live, sweep_loop) (sweep_loop-IsInStep now n m s ks v)
  ]

  -- A tracking policy that is well formed and holds exactly the keys of the items does so again
  -- after any call of the shard's methods.
  pub run-IsInStep : (c : Call) (s : Shard p) → IsInStep t s → IsInStep t (run p c s)
  unfolding run
  run-IsInStep (get k now) s v = get-IsInStep k now s v
  run-IsInStep (set k x e) s v = unfold Shard.set in store-IsInStep t k x e s v
  run-IsInStep (del k) s v = del-IsInStep k s v
  run-IsInStep (exists k now) s v = exists-IsInStep k now s v
  run-IsInStep (expire k e now) s v = expire-IsInStep k e now s v
  run-IsInStep (ttl k now) s v = ttl-IsInStep k now s v
  run-IsInStep (incr_by k d now) s v = incr_by-IsInStep k d now s v
  run-IsInStep flush s v =
      unfold Shard.flush in emit-IsInStep t flush_event _ (flush_silent-IsInStep s v)
  run-IsInStep (sweep_expired now n) s v =
      unfold Shard.sweep_expired in sweep_loop-IsInStep now n s.items s [] v
  run-IsInStep (apply_set k x e) s v =
      unfold Shard.apply_set in enforce_limits-IsInStep t k _ (set_locked-IsInStep t k x e s v)
  run-IsInStep (apply_del k) s v = apply_del-IsInStep k s v
  run-IsInStep (apply_expire k e) s v = apply_expire-IsInStep k e s v
  run-IsInStep flush_silent s v = flush_silent-IsInStep s v
