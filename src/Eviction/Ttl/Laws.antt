-- ===== src/Eviction/Ttl/Laws.antt =====
-- ttl.go: the policy TTL as an instance of the interface. A state comes with the fact that every
-- expiry time is on the heap, which every operation keeps.
use dist_cache.Base.{
  ◌<◌, ◌≡◌, refl, ap, ite, Bool, true, false, Option, none, some, length, Bytes, Bytes-discrete,
  bytes_eq, arith, Option-cases, inl, inr, if◌then◌else◌,
}
use dist_cache.Base.Assoc.{lookup, lookup-insert, lookup-erase}
use dist_cache.Base.Int64.{ℤ, is_zero}
use dist_cache.Eviction.Policy.{Policy, Bounded, Tracking}
use dist_cache.Eviction.Ttl.{HeapOps, Ttl, ttl_never, new_ttl, put, add, note, remove, evict}
use dist_cache.Eviction.Ttl.Order.{
  IsHeap, IsOnHeap, Outcome, put-IsOnHeap, remove-IsOnHeap, evict-IsOnHeap, evict-Outcome,
}

module _ (o : HeapOps) (q : IsHeap o) where
  unfoldable pub holds : Ttl o → Bytes → Bool
  holds p k = elim (lookup k p.eff) [ none ↦ false | some _ ↦ true ]

  pub new_ttl-IsOnHeap : IsOnHeap o q (new_ttl o)
  unfolding lookup
  new_ttl-IsOnHeap k e h = absurd (ground (arith, h))

  pub add-IsOnHeap : (p : Ttl o) (k : Bytes) → IsOnHeap o q p → IsOnHeap o q (add o p k)
  unfolding add
  add-IsOnHeap p k v = elim (Option-cases (lookup k p.eff)) [
    | inl e ↦ rw (e, add) (put-IsOnHeap o q p k ttl_never v)
    | inr (t, e) ↦ rw (e, add) v
  ]

  pub note-IsOnHeap : (p : Ttl o) (k : Bytes) (e : ℤ) → IsOnHeap o q p → IsOnHeap o q (note o p k e)
  unfolding note
  note-IsOnHeap p k e v = put-IsOnHeap o q p k (if is_zero e then ttl_never else e) v

  holds-put :
      (p : Ttl o) (k j : Bytes) (e : ℤ)
      → holds (put o p k e) j ≡ ite (Bytes-discrete k j) true (holds p j)
  unfolding holds put
  holds-put p k j e = ground (arith, lookup-insert k j e p.eff)

  holds-add :
      (p : Ttl o) (k j : Bytes) → holds (add o p k) j ≡ ite (Bytes-discrete k j) true (holds p j)
  unfolding holds add put
  holds-add p k j = ground (arith, lookup-insert k j ttl_never p.eff)

  holds-note :
      (p : Ttl o) (k j : Bytes) (e : ℤ) → holds p k ≡ true → holds (note o p k e) j ≡ holds p j
  unfolding note
  holds-note p k j e h = ground (arith, h, holds-put p k j (if is_zero e then ttl_never else e))

  holds-remove :
      (p : Ttl o) (k j : Bytes)
      → holds (remove o p k) j ≡ ite (Bytes-discrete k j) false (holds p j)
  unfolding holds remove
  holds-remove p k j = ground (arith, lookup-erase k j p.eff)

  abbrev Victim : Ttl o → Ttl o → Bytes → Bytes → Type 0
  Victim p r k j =
      (holds p k ≡ true)
      × (holds r j ≡ ite (Bytes-discrete k j) false (holds p j))
      × (o.size r.h < o.size p.h)

  victim :
      (p : Ttl o) (r : Ttl o × Option Bytes) (k j : Bytes)
      → Outcome o q p r
      → r.1 ≡ some k
      → Victim p r.0 k j
  unfolding holds
  victim p r k j (inl a) h = absurd (ground (arith, a.0, h))
  victim p r k j (inr (i, e, a, at, left, s, f)) h = (
    ground (arith, h, a, at),
    ground (arith, h, a, ap (lookup j) left, lookup-erase i j p.eff),
    s,
  )

  no_victim :
      (p : Ttl o) (r : Ttl o × Option Bytes) (j : Bytes)
      → Outcome o q p r
      → r.1 ≡ none
      → (holds p j ≡ false) × (holds r.0 j ≡ holds p j)
  unfolding holds
  no_victim p r j (inl a) h = (ground (arith, a.2 j), ground (arith, ap (lookup j) a.1))
  no_victim p r j (inr (i, e, a, at, left, s, f)) h = absurd (ground (arith, h, a))

  abbrev pub Valid : Type 0
  Valid = (p : Ttl o) × IsOnHeap o q p

  abbrev pub ttl : Policy
  ttl = record {
    State = Valid;
    init = (new_ttl o, new_ttl-IsOnHeap);
    add = λ s k. (add o s.0 k, add-IsOnHeap s.0 k s.1);
    access = λ s k. s;
    remove = λ s k. (remove o s.0 k, remove-IsOnHeap o q s.0 k s.1);
    evict = λ s. (((evict o s.0).0, evict-IsOnHeap o q s.0 s.1), (evict o s.0).1);
    len = λ s. length s.0.eff;
    weight = λ s. o.size s.0.h;
    note = some (λ s k e. (note o s.0 k e, note-IsOnHeap s.0 k e s.1));
  }

  pub ttl_tracking : Tracking ttl
  unfolding lookup holds
  ttl_tracking = record {
    IsValid = λ s. Unit;
    holds = λ s k. holds s.0 k;
    init-IsValid = tt;
    holds-init = λ k. refl;
    add-IsValid = λ s k v. tt;
    access-IsValid = λ s k v. tt;
    remove-IsValid = λ s k v. tt;
    evict-IsValid = λ s v. tt;
    note-IsValid = λ s k e v. tt;
    holds-add = λ s k j v. holds-add s.0 k j;
    holds-access = λ s k j v. refl;
    holds-remove = λ s k j v. holds-remove s.0 k j;
    holds-note = λ s k j e v h. holds-note s.0 k j e h;
    victim_held = λ s k v h. (victim s.0 (evict o s.0) k k (evict-Outcome o q s.0 s.1) h).0;
    holds-evict = λ s k j v h. (victim s.0 (evict o s.0) k j (evict-Outcome o q s.0 s.1) h).1;
    no_victim = λ s j v h. (no_victim s.0 (evict o s.0) j (evict-Outcome o q s.0 s.1) h).0;
    no_victim_state = λ s j h. (no_victim s.0 (evict o s.0) j (evict-Outcome o q s.0 s.1) h).1;
  }

  pub ttl_bounded : Bounded ttl
  ttl_bounded = record {
    evict_weight = λ s k h. (victim s.0 (evict o s.0) k k (evict-Outcome o q s.0 s.1) h).2;
  }
