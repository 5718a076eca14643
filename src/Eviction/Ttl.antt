-- ===== src/Eviction/Ttl.antt =====
-- ttl.go: the victim is the key that expires first. A key's entries on the heap stay when its
-- expiry time changes, and are passed over when they surface. container/heap, with the order that
-- `Less` gives, is a parameter.
pub mod Order
pub mod Laws
use dist_cache.Base.{
  ℕ, zero, suc, ◌-◌, ◌^◌, ◌==◌, Bool, false, Option, none, some, [], Bytes, bytes_eq, if◌then◌else◌,
}
use dist_cache.Base.Assoc.{Assoc, lookup, insert, erase}
use dist_cache.Base.Int64.{ℤ, pos, negsuc, is_zero}

-- `ttlItem`
pub record TtlItem : Type 0 where
  pub key : Bytes
  pub expire_at : ℤ

-- What ttl.go uses of container/heap on a `ttlHeap`.
pub record HeapOps : Type 1 where
  pub Heap : Type 0
  pub empty : Heap
  pub size : Heap → ℕ
  pub push : Heap → TtlItem → Heap
  -- `none` on an empty heap
  pub pop : Heap → Option (TtlItem × Heap)

-- `a == b`
abbrev pub same_time : ℤ → ℤ → Bool
same_time (pos m) (pos n) = m == n
same_time (negsuc m) (negsuc n) = m == n
same_time (pos m) (negsuc n) = false
same_time (negsuc m) (pos n) = false

-- `ttlNever`
abbrev pub ttl_never : ℤ
ttl_never = pos (2 ^ 63 - 1)

-- `cur, ok := p.eff[it.key]; ok && cur == it.expireAt`
abbrev pub is_current : Option ℤ → ℤ → Bool
is_current none e = false
is_current (some cur) e = same_time cur e

-- `ttl`
pub record Ttl (o : HeapOps) : Type 0 where
  pub eff : Assoc Bytes ℤ
  pub h : o.Heap

module _ (o : HeapOps) where
  abbrev pub new_ttl : Ttl o
  new_ttl = record { eff = []; h = o.empty }

  -- `p.eff[key] = e; heap.Push(&p.h, ttlItem{key: key, expireAt: e})`
  unfoldable pub put : Ttl o → Bytes → ℤ → Ttl o
  put p k e = record { eff = insert k e p.eff; h = o.push p.h (record { key = k; expire_at = e }) }

  unfoldable pub add : Ttl o → Bytes → Ttl o
  add p k = elim (lookup k p.eff) [ some _ ↦ p | none ↦ put p k ttl_never ]

  unfoldable pub note : Ttl o → Bytes → ℤ → Ttl o
  note p k e = put p k (if is_zero e then ttl_never else e)

  unfoldable pub remove : Ttl o → Bytes → Ttl o
  remove p k = record p { eff = erase k p.eff }

  -- The loop of `Evict`, for at most as many rounds as the heap has items.
  unfoldable pub evict_loop : ℕ → Ttl o → Ttl o × Option Bytes
  evict_loop zero p = (p, none)
  evict_loop (suc n) p = elim (o.pop p.h) [
    | none ↦ (p, none)
    | some (it, h) ↦
        let popped = record p { h = h } in
        let rest = evict_loop n popped in
        if is_current (lookup it.key p.eff) it.expire_at
        then (remove popped it.key, some it.key)
        else rest
  ]

  unfoldable pub evict : Ttl o → Ttl o × Option Bytes
  evict p = evict_loop (o.size p.h) p
