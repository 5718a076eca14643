-- ===== src/Cache/Shard/Methods.antt =====
-- Each method of shard.go on one key keeps the memory counter exact.
use dist_cache.Base.{
  ap, sym, ◌∙◌, ◌+◌, ◌^◌, ◌<◌, ◌≡◌, refl, some, arith, Bytes, bytes_eq, Option-cases, Bool-cases,
  inl, inr,
}
use dist_cache.Base.Assoc.{lookup, insert, total, total-insert_old, Distinct-insert}
use dist_cache.Base.Int64.{ℤ, pos}
use dist_cache.Cache.Item.{Item, expired, approx_size, set_event, del_event, expire_event}
use dist_cache.Cache.Shard
use dist_cache.Cache.Shard.{
  Shard, emit, remove_locked, set_locked, emit_dels, enforce_limits, drop_item, store, incr_base,
  forget_all, sweep_loop,
}
use dist_cache.Cache.Shard.Accounting.{
  size_of, IsAccounted, IsAccounted-same, remove_locked-IsAccounted, set_locked-IsAccounted,
  emit-IsAccounted, enforce_limits-IsAccounted, emit_dels-IsAccounted,
}
use dist_cache.Eviction.Policy.{Policy}

module _ {p : Policy} where
  pub drop_item-IsAccounted :
      (s : Shard p) (k : Bytes) (it : Item)
      → IsAccounted s
      → lookup k s.items ≡ some it
      → IsAccounted (drop_item p k it s)
  unfolding drop_item
  drop_item-IsAccounted s k it v e =
      emit-IsAccounted (del_event k) _ (remove_locked-IsAccounted s v k it e)

  pub store-IsAccounted :
      (s : Shard p) (k v : Bytes) (e : ℤ)
      → IsAccounted s
      → total size_of s.items + approx_size k v < 2 ^ 63
      → IsAccounted (store p k v e s).0
  unfolding store
  store-IsAccounted s k v e h fit =
      emit_dels-IsAccounted (enforce_limits p k (emit p (set_event k v e) (set_locked p k v e s))).1
        _
        (enforce_limits-IsAccounted k _
          (emit-IsAccounted (set_event k v e) _ (set_locked-IsAccounted s h k v e fit)))

  pub get-IsAccounted :
      (s : Shard p) (k : Bytes) (now : ℤ) → IsAccounted s → IsAccounted (Shard.get p k now s).0
  unfolding Shard.get
  get-IsAccounted s k now v = elim (Option-cases (lookup k s.items)) [
    | inl e ↦ rw (e, Shard.get) v
    | inr (it, e) ↦ elim (Bool-cases (expired it now)) [
      | inl old ↦ rw (e, old, Shard.get) (drop_item-IsAccounted s k it v e)
      | inr live ↦ rw (e, live, Shard.get) (IsAccounted-same s _ refl refl v)
    ]
  ]

  pub del-IsAccounted : (s : Shard p) (k : Bytes) → IsAccounted s → IsAccounted (Shard.del p k s).0
  unfolding Shard.del
  del-IsAccounted s k v = elim (Option-cases (lookup k s.items)) [
    | inl e ↦ rw (e, Shard.del) v
    | inr (it, e) ↦ rw (e, Shard.del) (drop_item-IsAccounted s k it v e)
  ]

  pub exists-IsAccounted :
      (s : Shard p) (k : Bytes) (now : ℤ) → IsAccounted s → IsAccounted (Shard.exists p k now s).0
  unfolding Shard.exists
  exists-IsAccounted s k now v = elim (Option-cases (lookup k s.items)) [
    | inl e ↦ rw (e, Shard.exists) v
    | inr (it, e) ↦ elim (Bool-cases (expired it now)) [
      | inl old ↦ rw (e, old, Shard.exists) (drop_item-IsAccounted s k it v e)
      | inr live ↦ rw (e, live, Shard.exists) v
    ]
  ]

  pub ttl-IsAccounted :
      (s : Shard p) (k : Bytes) (now : ℤ) → IsAccounted s → IsAccounted (Shard.ttl p k now s).0
  unfolding Shard.ttl
  ttl-IsAccounted s k now v = elim (Option-cases (lookup k s.items)) [
    | inl e ↦ rw (e, Shard.ttl) v
    | inr (it, e) ↦ elim (Bool-cases (expired it now)) [
      | inl old ↦ rw (e, old, Shard.ttl) (drop_item-IsAccounted s k it v e)
      | inr live ↦ rw (e, live, Shard.ttl) v
    ]
  ]

  -- A new expiry time changes no size.
  pub re_timed-IsAccounted :
      (s : Shard p) (k : Bytes) (it : Item) (e : ℤ) (st : p.State)
      → IsAccounted s
      → lookup k s.items ≡ some it
      → IsAccounted
          (record s { items = insert k (record it { expire_at = e }) s.items; policy = st })
  unfolding size_of
  re_timed-IsAccounted s k it e st v there =
      let swap : total size_of (insert k (record it { expire_at = e }) s.items)
          ≡ total size_of s.items =
        omega (arith, total-insert_old size_of k (record it { expire_at = e }) it s.items there) in
      record {
        distinct = Distinct-insert k (record it { expire_at = e }) s.items v.distinct;
        account = v.account ∙ ap pos (sym swap);
        fits = omega (arith, v.fits);
      }

  pub expire-IsAccounted :
      (s : Shard p) (k : Bytes) (e now : ℤ)
      → IsAccounted s
      → IsAccounted (Shard.expire p k e now s).0
  unfolding Shard.expire
  expire-IsAccounted s k e now v = elim (Option-cases (lookup k s.items)) [
    | inl h ↦ rw (h, Shard.expire) v
    | inr (it, h) ↦ elim (Bool-cases (expired it now)) [
      | inl old ↦ rw (h, old, Shard.expire) (drop_item-IsAccounted s k it v h)
      | inr live ↦
          rw (h, live, Shard.expire)
            (emit-IsAccounted (expire_event k e) _ (re_timed-IsAccounted s k it e _ v h))
    ]
  ]

  pub apply_expire-IsAccounted :
      (s : Shard p) (k : Bytes) (e : ℤ) → IsAccounted s → IsAccounted (Shard.apply_expire p k e s)
  unfolding Shard.apply_expire
  apply_expire-IsAccounted s k e v = elim (Option-cases (lookup k s.items)) [
    | inl h ↦ rw (h, Shard.apply_expire) v
    | inr (it, h) ↦ rw (h, Shard.apply_expire) (re_timed-IsAccounted s k it e _ v h)
  ]

  pub apply_del-IsAccounted :
      (s : Shard p) (k : Bytes) → IsAccounted s → IsAccounted (Shard.apply_del p k s)
  unfolding Shard.apply_del
  apply_del-IsAccounted s k v = elim (Option-cases (lookup k s.items)) [
    | inl h ↦ rw (h, Shard.apply_del) v
    | inr (it, h) ↦ rw (h, Shard.apply_del) (remove_locked-IsAccounted s v k it h)
  ]
