-- ===== src/Eviction/Ttl/Order.antt =====
-- ttl.go: which key an eviction names, given what container/heap documents of Push and Pop.
use dist_cache.Base.{
  ℕ, zero, suc, ◌≤◌, ◌<◌, ◌≡◌, refl, Bool, true, false, Option, none, some, Bytes, Bytes-discrete,
  bytes_eq, arith, ◌∙◌, sym, Option-cases, Bool-cases, inl, inr, ◌⊎◌, ap, subst,
}
use dist_cache.Base.Assoc.{lookup, erase, lookup-insert, lookup-erase}
use dist_cache.Base.Int64.{ℤ, pos, negsuc, lez}
use dist_cache.Eviction.Ttl.{
  TtlItem, HeapOps, Ttl, same_time, is_current, put, remove, evict_loop, evict,
}

-- What container/heap documents: `Push` adds the item, and `Pop` takes out an item that is least in
-- the order of `Less`; `Pop` is called on a heap that is not empty.
pub record IsHeap (o : HeapOps) : Type 1 where
  pub has : o.Heap → TtlItem → Bool
  pub pushed : (h : o.Heap) (x : TtlItem) → has (o.push h x) x ≡ true
  pub push_keeps : (h : o.Heap) (x y : TtlItem) → has h y ≡ true → has (o.push h x) y ≡ true
  pub pop_nothing : (h : o.Heap) (y : TtlItem) → o.pop h ≡ none → has h y ≡ false
  pub pop_keeps :
      (h h' : o.Heap) (x y : TtlItem)
      → o.pop h ≡ some (x, h')
      → has h y ≡ true
      → (y ≡ x) ⊎ (has h' y ≡ true)
  pub pop_least :
      (h h' : o.Heap) (x y : TtlItem)
      → o.pop h ≡ some (x, h')
      → has h y ≡ true
      → lez x.expire_at y.expire_at ≡ true
  pub pop_size : (h h' : o.Heap) (x : TtlItem) → o.pop h ≡ some (x, h') → o.size h' < o.size h

pub same_time_refl : (a : ℤ) → same_time a a ≡ true
same_time_refl (pos n) = ground arith
same_time_refl (negsuc n) = ground arith

pub same_time-eq : (a b : ℤ) → same_time a b ≡ true → a ≡ b
same_time-eq (pos m) (pos n) h = ground (arith, h)
same_time-eq (negsuc m) (negsuc n) h = ground (arith, h)
same_time-eq (pos m) (negsuc n) h = absurd (ground (arith, h))
same_time-eq (negsuc m) (pos n) h = absurd (ground (arith, h))

current-lookup : (c : Option ℤ) (e : ℤ) → is_current c e ≡ true → c ≡ some e
current-lookup none e h = absurd (ground (arith, h))
current-lookup (some a) e h = ap some (same_time-eq a e h)

abbrev pub item : Bytes → ℤ → TtlItem
item k e = record { key = k; expire_at = e }

pub item_eq : (k j : Bytes) (e d : ℤ) → k ≡ j → e ≡ d → item k e ≡ item j d
item_eq k j e d p r = ap (λ x. item x e) p ∙ ap (item j) r

module _ (o : HeapOps) (q : IsHeap o) where
  -- The expiry time of every key is on the heap.
  abbrev pub IsOnHeap : Ttl o → Type 0
  IsOnHeap p = (k : Bytes) (e : ℤ) → lookup k p.eff ≡ some e → q.has p.h (item k e) ≡ true

  pub put-IsOnHeap : (p : Ttl o) (k : Bytes) (e : ℤ) → IsOnHeap p → IsOnHeap (put o p k e)
  unfolding put
  put-IsOnHeap p k e v j d h = elim (Bytes-discrete k j) [
    | yes same ↦
        subst (λ (x : TtlItem). q.has (o.push p.h (item k e)) x ≡ true)
          (item_eq k j e d same (ground (arith, h, same, lookup-insert k j e p.eff)))
          (q.pushed p.h (item k e))
    | no other ↦
        q.push_keeps p.h (item k e) (item j d)
          (v j d (ground (arith, h, other, lookup-insert k j e p.eff)))
  ]

  pub remove-IsOnHeap : (p : Ttl o) (k : Bytes) → IsOnHeap p → IsOnHeap (remove o p k)
  unfolding remove
  remove-IsOnHeap p k v j d h = v j d (ground (arith, h, lookup-erase k j p.eff))

  -- What an eviction gives. Without a victim no key is left. A victim expires no later than any
  -- key, and it alone goes.
  abbrev pub Outcome : Ttl o → Ttl o × Option Bytes → Type 0
  Outcome p r =
      ((r.1 ≡ none) × (r.0.eff ≡ p.eff) × ((j : Bytes) → lookup j p.eff ≡ none))
      ⊎ ((k : Bytes) × (e : ℤ) × (r.1 ≡ some k)
          × (lookup k p.eff ≡ some e)
          × (r.0.eff ≡ erase k p.eff)
          × (o.size r.0.h < o.size p.h)
          × ((j : Bytes) (d : ℤ) → lookup j p.eff ≡ some d → lez e d ≡ true))

  nothing_left : (p : Ttl o) → IsOnHeap p → o.pop p.h ≡ none → (j : Bytes) → lookup j p.eff ≡ none
  nothing_left p v e j = elim (Option-cases (lookup j p.eff)) [
    | inl z ↦ z
    | inr (d, z) ↦ absurd (ground (arith, v j d z, q.pop_nothing p.h (item j d) e))
  ]

  -- Passing over an item that is not current.
  pass_over-IsOnHeap :
      (p : Ttl o) (it : TtlItem) (h : o.Heap)
      → IsOnHeap p
      → o.pop p.h ≡ some (it, h)
      → is_current (lookup it.key p.eff) it.expire_at ≡ false
      → IsOnHeap (record p { h = h })
  pass_over-IsOnHeap p it h v e c j d z = elim (q.pop_keeps p.h h it (item j d) e (v j d z)) [
    | inr kept ↦ kept
    | inl is_it ↦ absurd (
        stale (lookup j p.eff) d z (
          subst (λ (x : TtlItem). is_current (lookup x.key p.eff) x.expire_at ≡ false) (sym is_it)
            c))
  ]
    where
      stale : (m : Option ℤ) (d : ℤ) → m ≡ some d → is_current m d ≡ false → ⊥
      stale none d a b = ground (arith, a)
      stale (some x) d a b = ground (arith, a, b, same_time_refl d)

  -- Taking the key of an item that is current.
  taken-IsOnHeap :
      (p : Ttl o) (it : TtlItem) (h : o.Heap)
      → IsOnHeap p
      → o.pop p.h ≡ some (it, h)
      → IsOnHeap (remove o (record p { h = h }) it.key)
  unfolding remove
  taken-IsOnHeap p it h v e j d z =
      elim (q.pop_keeps p.h h it (item j d) e
        (v j d (ground (arith, z, lookup-erase it.key j p.eff)))) [
          | inr kept ↦ kept
          | inl is_it ↦
              absurd
                (ground (arith, z, ap (λ (x : TtlItem). x.key) is_it, lookup-erase it.key j p.eff))
        ]

  -- The three ways of a round.
  module _ (n : ℕ) (p : Ttl o) where
    round_end : o.pop p.h ≡ none → evict_loop o (suc n) p ≡ (p, none)
    unfolding evict_loop
    round_end e = rw (evict_loop, e) refl

    module _ (it : TtlItem) (h : o.Heap) (e : o.pop p.h ≡ some (it, h)) where
      round_take :
          is_current (lookup it.key p.eff) it.expire_at ≡ true
          → evict_loop o (suc n) p ≡ (remove o (record p { h = h }) it.key, some it.key)
      unfolding evict_loop
      round_take c = rw (evict_loop, e, c) refl

      round_pass :
          is_current (lookup it.key p.eff) it.expire_at ≡ false
          → evict_loop o (suc n) p ≡ evict_loop o n (record p { h = h })
      unfolding evict_loop
      round_pass c = rw (evict_loop, e, c) refl

  evict_loop-IsOnHeap : (n : ℕ) (p : Ttl o) → IsOnHeap p → IsOnHeap (evict_loop o n p).0
  unfolding evict_loop
  evict_loop-IsOnHeap zero p v = v
  evict_loop-IsOnHeap (suc n) p v = elim (Option-cases (o.pop p.h)) [
    | inl e ↦ rw (round_end n p e) v
    | inr ((it, h), e) ↦ elim (Bool-cases (is_current (lookup it.key p.eff) it.expire_at)) [
      | inl c ↦ rw (round_take n p it h e c) (taken-IsOnHeap p it h v e)
      | inr c ↦
          rw (round_pass n p it h e c)
            (evict_loop-IsOnHeap n (record p { h = h }) (pass_over-IsOnHeap p it h v e c))
    ]
  ]

  -- An outcome after one more pop.
  Outcome-popped :
      (p : Ttl o) (h : o.Heap) (r : Ttl o × Option Bytes)
      → o.size h < o.size p.h
      → Outcome (record p { h = h }) r
      → Outcome p r
  Outcome-popped p h r s (inl a) = inl a
  Outcome-popped p h r s (inr (k, e, a, b, c, d, f)) = inr (k, e, a, b, c, omega (arith, d, s), f)

  evict_loop-Outcome :
      (n : ℕ) (p : Ttl o) → IsOnHeap p → o.size p.h ≤ n → Outcome p (evict_loop o n p)
  unfolding evict_loop
  evict_loop-Outcome zero p v w = elim (Option-cases (o.pop p.h)) [
    | inl e ↦ inl (refl, refl, nothing_left p v e)
    | inr ((it, h), e) ↦ absurd (omega (arith, q.pop_size p.h h it e, w))
  ]
  evict_loop-Outcome (suc n) p v w = elim (Option-cases (o.pop p.h)) [
    | inl e ↦ rw (round_end n p e) (inl (refl, refl, nothing_left p v e))
    | inr ((it, h), e) ↦ elim (Bool-cases (is_current (lookup it.key p.eff) it.expire_at)) [
      | inl c ↦ rw (round_take n p it h e c) (
          inr (
            it.key,
            it.expire_at,
            refl,
            current-lookup (lookup it.key p.eff) it.expire_at c,
            unfold remove in refl,
            unfold remove in q.pop_size p.h h it e,
            λ j d z. q.pop_least p.h h it (item j d) e (v j d z),
          ))
      | inr c ↦
          let smaller = q.pop_size p.h h it e in
          rw (round_pass n p it h e c) (
            Outcome-popped p h (evict_loop o n (record p { h = h })) smaller (
              evict_loop-Outcome n (record p { h = h }) (pass_over-IsOnHeap p it h v e c)
                (omega (arith, smaller, w))))
    ]
  ]

  pub evict-IsOnHeap : (p : Ttl o) → IsOnHeap p → IsOnHeap (evict o p).0
  unfolding evict
  evict-IsOnHeap p v = evict_loop-IsOnHeap (o.size p.h) p v

  -- When Push and Pop of container/heap do what they document, and the expiry time of every key is
  -- on the heap: Evict names no key only when it tracks none. Otherwise it names a tracked key that
  -- expires no later than any tracked key, it stops tracking that key alone, and the heap has fewer
  -- items.
  pub evict-Outcome : (p : Ttl o) → IsOnHeap p → Outcome p (evict o p)
  unfolding evict
  evict-Outcome p v = evict_loop-Outcome (o.size p.h) p v (omega arith)
