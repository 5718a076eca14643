-- ===== src/Cache/Shard/Replay.antt =====
-- After any run of a shard's methods its events tell of all its items.
use dist_cache.Base.{
  ℕ, zero, suc, ◌≡◌, refl, true, none, some, List, [], ◌∷◌, ◌++◌, arith, Bytes, bytes_eq,
  Option-cases, Bool-cases, inl, inr,
}
use dist_cache.Base.Assoc.{Assoc, lookup, insert, lookup-insert, lookup-erase}
use dist_cache.Base.Decimal.{format_int}
use dist_cache.Base.Int64.{ℤ, pos, ◌+ℤ◌}
use dist_cache.Cache.Item.{Item, expired, flush_event, expire_event}
use dist_cache.Cache.Shard
use dist_cache.Cache.Shard.{Shard, remove_locked, drop_item, incr_base, sweep_loop}
use dist_cache.Cache.Shard.Calls.{
  Call, get, set, del, exists, expire, ttl, incr_by, flush, sweep_expired, apply_set, apply_del,
  apply_expire, flush_silent, run,
}
use dist_cache.Cache.Shard.EventLog.{
  apply_to, replay, IsLogged, LoggedBut, emit-IsLogged, store-IsLogged, drop_item-IsLogged,
}
use dist_cache.Eviction.Policy.{Policy}

-- The methods that a primary uses. The others, which a replica and a recovery use, emit nothing.
abbrev pub Emits : Call → Type 0
Emits (apply_set k v e) = ⊥
Emits (apply_del k) = ⊥
Emits (apply_expire k e) = ⊥
Emits flush_silent = ⊥
Emits _ = Unit

expire_agrees :
    (k j : Bytes) (e : ℤ) (it : Item) (m n : Assoc Bytes Item)
    → lookup k m ≡ some it
    → lookup k n ≡ lookup k m
    → lookup j n ≡ lookup j m
    → lookup j (apply_to (expire_event k e) n) ≡ lookup j (insert k (record it { expire_at = e }) m)
unfolding apply_to
expire_agrees k j e it m n h hk hj = ground (
  arith,
  lookup-insert k j (record it { expire_at = e }) m,
  lookup-insert k j (record it { expire_at = e }) n,
)

module _ (start : Assoc Bytes Item) {p : Policy} where
  but_one : (k : Bytes) (s : Shard p) → IsLogged start s → LoggedBut start k s
  but_one k s l = record { listened = l.listened; agrees = λ j n. l.agrees j }

  -- An access changes the policy alone.
  other_policy :
      (s : Shard p) (st : p.State) → IsLogged start s → IsLogged start (record s { policy = st })
  other_policy s st l = record { listened = l.listened; agrees = l.agrees }

  get-IsLogged :
      (k : Bytes) (now : ℤ) (s : Shard p)
      → IsLogged start s
      → IsLogged start (Shard.get p k now s).0
  unfolding Shard.get
  get-IsLogged k now s l = elim (Option-cases (lookup k s.items)) [
    | inl e ↦ rw (e, Shard.get) l
    | inr (it, e) ↦ elim (Bool-cases (expired it now)) [
      | inl old ↦ rw (e, old, Shard.get) (drop_item-IsLogged start k it s l)
      | inr live ↦ rw (e, live, Shard.get) (other_policy s _ l)
    ]
  ]

  del-IsLogged : (k : Bytes) (s : Shard p) → IsLogged start s → IsLogged start (Shard.del p k s).0
  unfolding Shard.del
  del-IsLogged k s l = elim (Option-cases (lookup k s.items)) [
    | inl e ↦ rw (e, Shard.del) l
    | inr (it, e) ↦ rw (e, Shard.del) (drop_item-IsLogged start k it s l)
  ]

  exists-IsLogged :
      (k : Bytes) (now : ℤ) (s : Shard p)
      → IsLogged start s
      → IsLogged start (Shard.exists p k now s).0
  unfolding Shard.exists
  exists-IsLogged k now s l = elim (Option-cases (lookup k s.items)) [
    | inl e ↦ rw (e, Shard.exists) l
    | inr (it, e) ↦ elim (Bool-cases (expired it now)) [
      | inl old ↦ rw (e, old, Shard.exists) (drop_item-IsLogged start k it s l)
      | inr live ↦ rw (e, live, Shard.exists) l
    ]
  ]

  ttl-IsLogged :
      (k : Bytes) (now : ℤ) (s : Shard p)
      → IsLogged start s
      → IsLogged start (Shard.ttl p k now s).0
  unfolding Shard.ttl
  ttl-IsLogged k now s l = elim (Option-cases (lookup k s.items)) [
    | inl e ↦ rw (e, Shard.ttl) l
    | inr (it, e) ↦ elim (Bool-cases (expired it now)) [
      | inl old ↦ rw (e, old, Shard.ttl) (drop_item-IsLogged start k it s l)
      | inr live ↦ rw (e, live, Shard.ttl) l
    ]
  ]

  expire-IsLogged :
      (k : Bytes) (e now : ℤ) (s : Shard p)
      → IsLogged start s
      → IsLogged start (Shard.expire p k e now s).0
  unfolding Shard.expire
  expire-IsLogged k e now s l = elim (Option-cases (lookup k s.items)) [
    | inl h ↦ rw (h, Shard.expire) l
    | inr (it, h) ↦ elim (Bool-cases (expired it now)) [
      | inl old ↦ rw (h, old, Shard.expire) (drop_item-IsLogged start k it s l)
      | inr live ↦
          rw (h, live, Shard.expire)
            (emit-IsLogged start (expire_event k e) _ l.listened
              (λ j. expire_agrees k j e it s.items _ h (l.agrees k) (l.agrees j)))
    ]
  ]

  -- An increment drops an expired item silently, and then stores that very key.
  incr_base-LoggedBut :
      (k : Bytes) (now : ℤ) (s : Shard p)
      → IsLogged start s
      → LoggedBut start k (incr_base p k now s).0
  unfolding incr_base remove_locked
  incr_base-LoggedBut k now s l = elim (Option-cases (lookup k s.items)) [
    | inl h ↦ rw (h, incr_base) (but_one k s l)
    | inr (it, h) ↦ elim (Bool-cases (expired it now)) [
      | inl old ↦
          rw (h, old, incr_base)
            (record {
              listened = l.listened;
              agrees = λ j n. ground (arith, l.agrees j, lookup-erase k j s.items);
            })
      | inr live ↦ rw (h, live, incr_base) (but_one k s l)
    ]
  ]

  incr_base-none :
      (k : Bytes) (now : ℤ) (s : Shard p)
      → (incr_base p k now s).1 ≡ none
      → (incr_base p k now s).0 ≡ s
  unfolding incr_base
  incr_base-none k now s h = elim (Option-cases (lookup k s.items)) [
    | inl e ↦ rw (e, incr_base)
    | inr (it, e) ↦ elim (Bool-cases (expired it now)) [
      | inl old ↦ absurd (ground arith)
      | inr live ↦ rw (e, live, incr_base)
    ]
  ]

  incr_by-IsLogged :
      (k : Bytes) (d now : ℤ) (s : Shard p)
      → IsLogged start s
      → IsLogged start (Shard.incr_by p k d now s).0
  unfolding Shard.incr_by
  incr_by-IsLogged k d now s l = elim (Option-cases (incr_base p k now s).1) [
    | inl h ↦ rw (h, Shard.incr_by, incr_base-none k now s h) l
    | inr (b, h) ↦
        rw (h, Shard.incr_by)
          (store-IsLogged start k (format_int (b +ℤ d)) (pos 0) _ (incr_base-LoggedBut k now s l))
  ]

  flush-IsLogged : (s : Shard p) → IsLogged start s → IsLogged start (Shard.flush p s)
  unfolding Shard.flush Shard.flush_silent apply_to
  flush-IsLogged s l = emit-IsLogged start flush_event _ l.listened (λ j. refl)

  sweep_loop-IsLogged :
      (now : ℤ) (n : ℕ) (m : Assoc Bytes Item) (s : Shard p) (ks : List Bytes)
      → IsLogged start s
      → IsLogged start (sweep_loop p now n m s ks).0
  unfolding sweep_loop
  sweep_loop-IsLogged now zero m s ks l = l
  sweep_loop-IsLogged now (suc n) [] s ks l = l
  sweep_loop-IsLogged now (suc n) ((k, it) ∷ m) s ks l = elim (Bool-cases (expired it now)) [
    | inl old ↦
        rw (old, sweep_loop)
          (sweep_loop-IsLogged now n m (drop_item p k it s) (ks ++ k ∷ [])
            (drop_item-IsLogged start k it s l))
    | inr live ↦ rw (live, sweep_loop) (sweep_loop-IsLogged now n m s ks l)
  ]

  -- One call keeps the events in step with the items.
  pub run-IsLogged :
      (c : Call) (s : Shard p) → Emits c → IsLogged start s → IsLogged start (run p c s)
  unfolding run
  run-IsLogged (get k now) s t l = get-IsLogged k now s l
  run-IsLogged (set k v e) s t l = unfold Shard.set in store-IsLogged start k v e s (but_one k s l)
  run-IsLogged (del k) s t l = del-IsLogged k s l
  run-IsLogged (exists k now) s t l = exists-IsLogged k now s l
  run-IsLogged (expire k e now) s t l = expire-IsLogged k e now s l
  run-IsLogged (ttl k now) s t l = ttl-IsLogged k now s l
  run-IsLogged (incr_by k d now) s t l = incr_by-IsLogged k d now s l
  run-IsLogged flush s t l = flush-IsLogged s l
  run-IsLogged (sweep_expired now n) s t l =
      unfold Shard.sweep_expired in sweep_loop-IsLogged now n s.items s [] l
  run-IsLogged _ s t l = absurd t

-- Calls in sequence.
unfoldable pub run_all : (p : Policy) → List Call → Shard p → Shard p
run_all p [] s = s
run_all p (c ∷ cs) s = run_all p cs (run p c s)

abbrev pub AllEmit : List Call → Type 0
AllEmit [] = Unit
AllEmit (c ∷ cs) = Emits c × AllEmit cs

run_all-IsLogged :
    (start : Assoc Bytes Item) {p : Policy} (cs : List Call) (s : Shard p)
    → AllEmit cs
    → IsLogged start s
    → IsLogged start (run_all p cs s)
unfolding run_all
run_all-IsLogged start [] s t l = l
run_all-IsLogged start {p} (c ∷ cs) s t l =
    run_all-IsLogged start cs (run p c s) t.1 (run-IsLogged start c s t.0 l)

-- A new shard with a subscriber, after any sequence of the primary's methods, and under any
-- eviction policy and limits: a map that applies the emitted events in order, starting empty, has
-- for every key the value and expiry time that the shard has, and no other key.
pub replay-run_all :
    (p : Policy) (max_entries max_memory : ℤ) (cs : List Call)
    → AllEmit cs
    → (j : Bytes)
    → lookup j (replay (run_all p cs (Shard.new_shard p max_entries max_memory true)).emitted [])
      ≡ lookup j (run_all p cs (Shard.new_shard p max_entries max_memory true)).items
unfolding replay Shard.new_shard
replay-run_all p max_entries max_memory cs t =
    (run_all-IsLogged [] cs (Shard.new_shard p max_entries max_memory true) t
      (record { listened = refl; agrees = λ j. refl })).agrees
