-- ===== src/Cache/Shard/Capacity.antt =====
-- Under a policy that evicts the newest key last, such as LRU, `set` ends within the limits.
use dist_cache.Base.{
  ℕ, suc, ◌+◌, ◌^◌, ◌≤◌, ◌<◌, ◌≡◌, refl, ◌∙◌, true, false, ◌⊎◌, some, List, [], ◌∷◌, length, arith,
  Bytes, bytes_eq, Option-cases, inl, inr,
}
use dist_cache.Base.Assoc.{Assoc, lookup, total, Distinct}
use dist_cache.Base.Int64.{ℤ, pos}
use dist_cache.Cache.Item.{Item, Event, set_event, approx_size, del_event}
use dist_cache.Cache.Shard
use dist_cache.Cache.Shard.{
  Shard, emit, set_locked, emit_dels, over_capacity, enforce_limits, drop_victim, store,
}
use dist_cache.Cache.Shard.Accounting.{size_of, IsAccounted}
use dist_cache.Cache.Shard.Methods.{store-IsAccounted}
use dist_cache.Cache.Shard.Evicted.{lookup-set, items-emit_dels}
use dist_cache.Cache.Shard.InStep.{IsInStep, is_some}
use dist_cache.Cache.Shard.Limits.{Settled, enforce_limits-Settled}
use dist_cache.Cache.Shard.Loop.{evict_rule}
use dist_cache.Eviction.Policy.{Policy, Bounded, Tracking, Recency}

only_one :
    (k : Bytes) (it : Item) (m : Assoc Bytes Item)
    → Distinct m
    → ((j : Bytes) → is_some (lookup j m) ≡ true → k ≡ j)
    → lookup k m ≡ some it
    → m ≡ (k, it) ∷ []
unfolding lookup
only_one k it [] u only h = absurd (ground arith)
only_one k it ((a, b) ∷ []) u only h = ground (arith, only a)
only_one k it ((a, b) ∷ (c, d) ∷ m) u only h = absurd (ground (arith, only a, only c))

module _ {p : Policy} where
  -- The limits are settings that no step changes.
  record SameLimits (s u : Shard p) : Type 0 where
    entries : u.max_entries ≡ s.max_entries
    memory : u.max_memory ≡ s.max_memory

  drop_victim-SameLimits :
      (s u : Shard p) (w : Bytes) (ks : List Bytes)
      → SameLimits s u
      → SameLimits s (drop_victim p w u ks).0
  unfolding drop_victim
  drop_victim-SameLimits s u w ks l = elim (Option-cases (lookup w u.items)) [
    | inl e ↦ rw (e, drop_victim) l
    | inr (it, e) ↦ rw (e, drop_victim) (record { entries = l.entries; memory = l.memory })
  ]

  enforce_limits-SameLimits :
      (s u : Shard p) (k : Bytes) → SameLimits s u → SameLimits s (enforce_limits p k u).0
  unfolding enforce_limits
  enforce_limits-SameLimits s u k l =
      evict_rule p k (λ v ks. SameLimits s v)
        (record {
          none_left = λ v ks l over e. record { entries = l.entries; memory = l.memory };
          kept = λ v ks l over e. record { entries = l.entries; memory = l.memory };
          dropped = λ v ks w l over e other.
              drop_victim-SameLimits s _ w ks (record { entries = l.entries; memory = l.memory });
        })
        (suc (p.weight u.policy)) u [] l

  emit-SameLimits : (s u : Shard p) (ev : Event) → SameLimits s u → SameLimits s (emit p ev u)
  unfolding emit
  emit-SameLimits s u ev l = record {
    entries = ground (arith, l.entries);
    memory = ground (arith, l.memory);
  }

  emit_dels-SameLimits :
      (s : Shard p) (ks : List Bytes) (u : Shard p)
      → SameLimits s u
      → SameLimits s (emit_dels p ks u)
  unfolding emit_dels
  emit_dels-SameLimits s [] u l = l
  emit_dels-SameLimits s (k ∷ ks) u l =
      emit_dels-SameLimits s ks (emit p (del_event k) u) (emit-SameLimits s u (del_event k) l)

  set_locked-SameLimits : (s : Shard p) (k x : Bytes) (e : ℤ) → SameLimits s (set_locked p k x e s)
  unfolding set_locked
  set_locked-SameLimits s k x e = record { entries = ground arith; memory = ground arith }

  store-SameLimits : (s : Shard p) (k x : Bytes) (e : ℤ) → SameLimits s (store p k x e s).0
  unfolding store
  store-SameLimits s k x e =
      let u : Shard p = emit p (set_event k x e) (set_locked p k x e s) in
      emit_dels-SameLimits s (enforce_limits p k u).1 (enforce_limits p k u).0 (
        enforce_limits-SameLimits s u k
          (emit-SameLimits s _ (set_event k x e) (set_locked-SameLimits s k x e)))

  over_capacity-emit_dels :
      (ks : List Bytes) (s : Shard p) → over_capacity p (emit_dels p ks s) ≡ over_capacity p s
  unfolding emit_dels emit over_capacity
  over_capacity-emit_dels [] s = refl
  over_capacity-emit_dels (k ∷ ks) s = over_capacity-emit_dels ks _ ∙ ground arith

  store-Settled :
      (b : Bounded p) (t : Tracking p) (r : Recency p t) (k x : Bytes) (e : ℤ) (s : Shard p)
      → IsInStep t s
      → Settled t k (store p k x e s).0
  unfolding store
  store-Settled b t r k x e s v =
      let u : Shard p = emit p (set_event k x e) (set_locked p k x e s) in
      let ks : List Bytes = (enforce_limits p k u).1 in
      rw (over_capacity-emit_dels ks, items-emit_dels ks) (enforce_limits-Settled t k b r x e s v)

  within :
      (s : Shard p) (n : ℕ) (me mm : ℕ)
      → over_capacity p s ≡ false
      → s.max_entries ≡ pos me
      → s.max_memory ≡ pos mm
      → s.mem ≡ pos n
      → ((me ≡ 0) ⊎ (length s.items ≤ me)) × ((mm ≡ 0) ⊎ (n ≤ mm))
  unfolding over_capacity
  within s n me mm h e1 e2 e3 = (ground arith, ground arith)

  Settled-within :
      (t : Tracking p) (k : Bytes) (it : Item) (z : Shard p) (me mm : ℕ)
      → IsAccounted z
      → Settled t k z
      → lookup k z.items ≡ some it
      → z.max_entries ≡ pos me
      → z.max_memory ≡ pos mm
      → ((me ≡ 0) ⊎ (length z.items ≤ me)) × ((mm < size_of k it) ⊎ (total size_of z.items ≤ mm))
  unfolding size_of approx_size total
  Settled-within t k it z me mm v (inl under) h e1 e2 =
      let (entries, memory) = within z (total size_of z.items) me mm under e1 e2 v.account in
      (entries, ground (arith, memory))
  Settled-within t k it z me mm v (inr only) h e1 e2 =
      let one : z.items ≡ (k, it) ∷ [] = only_one k it z.items v.distinct only h in
      rw one (ground arith, ground arith)

  written :
      (k x : Bytes) (e : ℤ) (s : Shard p)
      → lookup k (Shard.set p k x e s).0.items ≡ some (record { value = x; expire_at = e })
  written k x e s = let (found, kept) = lookup-set k x e s k in ground (arith, found, kept)

  -- Under a policy that evicts the newest key last, from an exact memory count and a policy in
  -- step, and with limits that are not negative: after `set` there is no limit on the entries or
  -- the shard has at most `max_entries` items, and the new entry alone exceeds `max_memory` or the
  -- items together do not.
  pub set_within_limits :
      (b : Bounded p) (t : Tracking p) (r : Recency p t) (k x : Bytes) (e : ℤ) (s : Shard p)
      (me mm : ℕ)
      → IsAccounted s
      → IsInStep t s
      → s.max_entries ≡ pos me
      → s.max_memory ≡ pos mm
      → total size_of s.items + approx_size k x < 2 ^ 63
      → ((me ≡ 0) ⊎ (length (Shard.set p k x e s).0.items ≤ me))
        × ((mm < approx_size k x) ⊎ (total size_of (Shard.set p k x e s).0.items ≤ mm))
  unfolding Shard.set size_of
  set_within_limits b t r k x e s me mm v w e1 e2 fit =
      let it : Item = record { value = x; expire_at = e } in
      let l : SameLimits s (store p k x e s).0 = store-SameLimits s k x e in
      Settled-within t k it (store p k x e s).0 me mm (store-IsAccounted s k x e v fit)
        (store-Settled b t r k x e s w) (written k x e s) (l.entries ∙ e1) (l.memory ∙ e2)
