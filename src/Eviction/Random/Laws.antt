-- ===== src/Eviction/Random/Laws.antt =====
-- random.go: the random policy as an instance of the interface. A state comes with the fact that
-- its index is right, which every operation keeps; the number drawn is below its bound.
use dist_cache.Base.{
  ℕ, ◌<◌, ◌+◌, ◌==◌, ◌≡◌, refl, sym, ap, ite, true, false, Option, none, some, length, Bytes,
  Bytes-discrete, bytes_eq, arith, Bool-cases, inl, inr, ◌⊎◌,
}
use dist_cache.Base.Assoc.{lookup}
use dist_cache.Base.Positions.{get_elem?-some}
use dist_cache.Eviction.Drain.{victims, is_among, is_among-victims}
use dist_cache.Eviction.Policy.{Policy, Bounded, Tracking}
use dist_cache.Eviction.Random.{Random, new_random, add, remove, evict_at, evict}
use dist_cache.Eviction.Random.Index.{
  IsIndexed, new_random-IsIndexed, add-IsIndexed, remove-IsIndexed, holds, holds-add, holds-remove,
  length-remove, holds_nothing,
}

module _ {Rng : Type 0} (intn : Rng → ℕ → Rng × ℕ)
    (intn_below : (rng : Rng) (n : ℕ) → 0 < n → (intn rng n).1 < n) where
  -- the state after a draw
  abbrev drawn : Random Rng → Random Rng
  drawn p = record p { rng = (intn p.rng (length p.keys)).0 }

  drawn-IsIndexed : (p : Random Rng) → IsIndexed p → IsIndexed (drawn p)
  drawn-IsIndexed p v = record { placed = v.placed; found = v.found }

  -- What `Evict` returns: nothing from a slice without keys, else a held key, which it removes.
  abbrev Outcome : Random Rng → Random Rng × Option Bytes → Type 0
  Outcome p r =
      ((length p.keys ≡ 0) × (r ≡ (p, none)))
      ⊎ ((k : Bytes) × (holds p k ≡ true) × (r ≡ (remove (drawn p) k, some k)))

  outcome : (p : Random Rng) → IsIndexed p → Outcome p (evict intn p)
  unfolding evict evict_at
  outcome p v = elim (Bool-cases (length p.keys == 0)) [
    | inl e ↦ inl (ground (arith, e), rw e refl)
    | inr e ↦
        let i = (intn p.rng (length p.keys)).1 in
        let (k, at) =
          get_elem?-some p.keys i (intn_below p.rng (length p.keys) (ground (arith, e))) in
        inr (k, unfold holds in ground (arith, v.found k i at), rw (e, at) refl)
  ]

  pub evict-IsIndexed : (p : Random Rng) → IsIndexed p → IsIndexed (evict intn p).0
  evict-IsIndexed p v = elim (outcome p v) [
    | inl (z, e) ↦ rw e v
    | inr (k, h, e) ↦ rw e (remove-IsIndexed (drawn p) k (drawn-IsIndexed p v))
  ]

  -- A victim was held; it alone is held no more, and the slice is one key shorter.
  abbrev Victim : Random Rng → Random Rng → Bytes → Bytes → Type 0
  Victim p q k j =
      (holds p k ≡ true)
      × (holds q j ≡ ite (Bytes-discrete k j) false (holds p j))
      × (length q.keys + 1 ≡ length p.keys)

  remove-Victim :
      (p : Random Rng) (k j : Bytes)
      → IsIndexed p
      → holds p k ≡ true
      → Victim p (remove (drawn p) k) k j
  unfolding holds
  remove-Victim p k j v h =
      let w = drawn-IsIndexed p v in
      (h, holds-remove (drawn p) k j w, length-remove (drawn p) k w h)

  victim :
      (p : Random Rng) (k j : Bytes)
      → IsIndexed p
      → (evict intn p).1 ≡ some k
      → Victim p (evict intn p).0 k j
  victim p k j v h = elim (outcome p v) [
    | inl (z, e) ↦ absurd (ground (arith, h, e))
    | inr (i, held, e) ↦
        let same_key : i ≡ k = ground (arith, h, e) in
        rw (e, sym same_key) (remove-Victim p i j v held)
  ]

  no_victim :
      (p : Random Rng) (j : Bytes)
      → IsIndexed p
      → (evict intn p).1 ≡ none
      → (holds p j ≡ false) × ((evict intn p).0 ≡ p)
  no_victim p j v h = elim (outcome p v) [
    | inl (z, e) ↦ (holds_nothing p j v z, ap (λ r. r.0) e)
    | inr (k, held, e) ↦ absurd (ground (arith, h, e))
  ]

  abbrev pub Valid : Type 0
  Valid = (p : Random Rng) × IsIndexed p

  abbrev pub random : Rng → Policy
  random seed = record {
    State = Valid;
    init = (new_random seed, new_random-IsIndexed seed);
    add = λ s k. (add s.0 k, add-IsIndexed s.0 k s.1);
    access = λ s k. s;
    remove = λ s k. (remove s.0 k, remove-IsIndexed s.0 k s.1);
    evict = λ s. (((evict intn s.0).0, evict-IsIndexed s.0 s.1), (evict intn s.0).1);
    len = λ s. length s.0.keys;
    weight = λ s. length s.0.keys;
    note = none;
  }

  pub random_tracking : (seed : Rng) → Tracking (random seed)
  unfolding lookup holds
  random_tracking seed = record {
    IsValid = λ s. Unit;
    holds = λ s k. holds s.0 k;
    init-IsValid = tt;
    holds-init = λ k. refl;
    add-IsValid = λ s k v. tt;
    access-IsValid = λ s k v. tt;
    remove-IsValid = λ s k v. tt;
    evict-IsValid = λ s v. tt;
    note-IsValid = λ s k e v. tt;
    holds-add = λ s k j v. holds-add s.0 k j;
    holds-access = λ s k j v. refl;
    holds-remove = λ s k j v. holds-remove s.0 k j s.1;
    holds-note = λ s k j e v h. refl;
    victim_held = λ s k v h. (victim s.0 k k s.1 h).0;
    holds-evict = λ s k j v h. (victim s.0 k j s.1 h).1;
    no_victim = λ s j v h. (no_victim s.0 j s.1 h).0;
    no_victim_state = λ s j h. ap (λ p. holds p j) (no_victim s.0 j s.1 h).1;
  }

  pub random_bounded : (seed : Rng) → Bounded (random seed)
  random_bounded seed = record { evict_weight = λ s k h. omega (arith, (victim s.0 k k s.1 h).2) }

  -- However `Intn` draws below its bound, and for any state whose index names the place of each of
  -- its keys and nothing else: the victims of as many evictions as the slice has keys are the keys
  -- that the index had, all of them and no other.
  pub is_among-victims-random :
      (seed : Rng) (s : Valid) (k : Bytes)
      → is_among k (victims (random seed) (length s.0.keys) s) ≡ holds s.0 k
  unfolding random_tracking
  is_among-victims-random seed s k =
      is_among-victims (random seed) (random_tracking seed) (random_bounded seed) (length s.0.keys)
        s k tt (omega arith)
