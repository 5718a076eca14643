-- ===== src/Eviction/Random/Index.antt =====
-- random.go: the index names the place of every key in the slice, and every operation keeps it.
use dist_cache.Base.{
  ℕ, ◌-◌, ◌==◌, ◌≡◌, ◌≢◌, refl, ite, Bool, true, false, none, some, length, Bytes, Bytes-discrete,
  bytes_eq, arith, Option-cases, Bool-cases, inl, inr, ◌+◌,
}
use dist_cache.Base.Assoc.{lookup, insert, lookup-insert, lookup-erase}
use dist_cache.Base.Positions.{
  get_elem?, set, get_elem?-set, get_elem?-take, get_elem?-snoc, get_elem?-below, get_elem?-some,
  length-set, length-take,
}
use dist_cache.Eviction.Random.{Random, new_random, add, move, cut, remove_at, remove}

module _ {Rng : Type 0} where
  pub record IsIndexed (p : Random Rng) : Type 0 where
    pub placed : (k : Bytes) (i : ℕ) → lookup k p.idx ≡ some i → get_elem? p.keys i ≡ some k
    pub found : (k : Bytes) (i : ℕ) → get_elem? p.keys i ≡ some k → lookup k p.idx ≡ some i

  pub new_random-IsIndexed : (rng : Rng) → IsIndexed (new_random rng)
  unfolding lookup get_elem?
  new_random-IsIndexed rng = record {
    placed = λ k i h. absurd (ground arith);
    found = λ k i h. absurd (ground arith);
  }

  pub add-IsIndexed : (p : Random Rng) (k : Bytes) → IsIndexed p → IsIndexed (add p k)
  unfolding add
  add-IsIndexed p k v = elim (Option-cases (lookup k p.idx)) [
    | inr (i, e) ↦ rw (e, add) v
    | inl e ↦
        rw (e, add)
          (record {
            placed = λ j i h. ground (
              arith,
              lookup-insert k j (length p.keys) p.idx,
              get_elem?-snoc p.keys i k,
              v.placed j i,
              get_elem?-below p.keys i j,
            );
            found = λ j i h. ground (
              arith,
              lookup-insert k j (length p.keys) p.idx,
              get_elem?-snoc p.keys i k,
              v.found j i,
            );
          })
  ]

  -- Taking out the key at place `i` of a slice that has a last key.
  module _ (p : Random Rng) (v : IsIndexed p) (k m : Bytes) (i last : ℕ)
      (at : lookup k p.idx ≡ some i) (e : last ≡ length p.keys - 1)
      (l : get_elem? p.keys last ≡ some m) where
    cut-IsIndexed : i ≡ last → IsIndexed (cut p k last)
    unfolding cut
    cut-IsIndexed h = record {
      placed = λ j n a. ground (
        arith,
        lookup-erase k j p.idx,
        get_elem?-take last n p.keys,
        v.placed j n,
        v.placed k i,
        get_elem?-below p.keys n j,
      );
      found = λ j n a.
          ground (arith, lookup-erase k j p.idx, get_elem?-take last n p.keys, v.found j n);
    }

    cut-move-IsIndexed : i ≢ last → IsIndexed (cut (move p last i) k last)
    unfolding cut move
    cut-move-IsIndexed h =
        rw (l, move)
          (record {
            placed = λ j n a. ground (
              arith,
              lookup-erase k j (insert m i p.idx),
              lookup-insert m j i p.idx,
              get_elem?-take last n (set p.keys i m),
              get_elem?-set p.keys i n m,
              v.placed j n,
              v.placed k i,
              v.found m last,
              get_elem?-below p.keys n j,
              get_elem?-below p.keys i k,
            );
            found = λ j n a. ground (
              arith,
              lookup-erase k j (insert m i p.idx),
              lookup-insert m j i p.idx,
              get_elem?-take last n (set p.keys i m),
              get_elem?-set p.keys i n m,
              v.placed k i,
              v.found m last,
              v.found j n,
              get_elem?-below p.keys i k,
            );
          })

  -- A key with a place has a slice with a last key.
  last_key :
      (p : Random Rng) (k : Bytes) (i : ℕ)
      → IsIndexed p
      → lookup k p.idx ≡ some i
      → (m : Bytes) × (get_elem? p.keys (length p.keys - 1) ≡ some m)
  last_key p k i v at =
      get_elem?-some p.keys (length p.keys - 1)
        (omega (arith, get_elem?-below p.keys i k (v.placed k i at)))

  remove_at-IsIndexed :
      (p : Random Rng) (k : Bytes) (i : ℕ)
      → IsIndexed p
      → lookup k p.idx ≡ some i
      → IsIndexed (remove_at p k i)
  unfolding remove_at
  remove_at-IsIndexed p k i v at =
      let last = length p.keys - 1 in
      let (m, l) = last_key p k i v at in
      elim (Bool-cases (i == last)) [
        | inl e ↦ rw e (cut-IsIndexed p v k m i last at refl l (ground (arith, e)))
        | inr e ↦
            rw e (cut-move-IsIndexed p v k m i last at refl l (λ h. absurd (ground (arith, e, h))))
      ]

  pub remove-IsIndexed : (p : Random Rng) (k : Bytes) → IsIndexed p → IsIndexed (remove p k)
  unfolding remove
  remove-IsIndexed p k v = elim (Option-cases (lookup k p.idx)) [
    | inl e ↦ rw (e, remove) v
    | inr (i, e) ↦ rw (e, remove) (remove_at-IsIndexed p k i v e)
  ]

  unfoldable pub holds : Random Rng → Bytes → Bool
  holds p k = elim (lookup k p.idx) [ none ↦ false | some _ ↦ true ]

  pub holds-add :
      (p : Random Rng) (k j : Bytes) → holds (add p k) j ≡ ite (Bytes-discrete k j) true (holds p j)
  unfolding holds add
  holds-add p k j = ground (arith, lookup-insert k j (length p.keys) p.idx)

  holds-remove_at :
      (p : Random Rng) (k j : Bytes) (i : ℕ)
      → IsIndexed p
      → lookup k p.idx ≡ some i
      → holds (remove_at p k i) j ≡ ite (Bytes-discrete k j) false (holds p j)
  unfolding holds remove_at cut move
  holds-remove_at p k j i v at =
      let (m, l) = last_key p k i v at in
      ground (
        arith,
        l,
        v.found m (length p.keys - 1),
        lookup-erase k j p.idx,
        lookup-erase k j (insert m i p.idx),
        lookup-insert m j i p.idx,
      )

  pub holds-remove :
      (p : Random Rng) (k j : Bytes)
      → IsIndexed p
      → holds (remove p k) j ≡ ite (Bytes-discrete k j) false (holds p j)
  unfolding remove
  holds-remove p k j v = elim (Option-cases (lookup k p.idx)) [
    | inl e ↦ unfold holds in ground (arith, e)
    | inr (i, e) ↦ rw (e, remove) (holds-remove_at p k j i v e)
  ]

  pub length-remove :
      (p : Random Rng) (k : Bytes)
      → IsIndexed p
      → holds p k ≡ true
      → length (remove p k).keys + 1 ≡ length p.keys
  unfolding holds remove remove_at cut move
  length-remove p k v h = elim (Option-cases (lookup k p.idx)) [
    | inl e ↦ absurd (ground (arith, e, h))
    | inr (i, e) ↦
        let last = length p.keys - 1 in
        let (m, l) = last_key p k i v e in
        ground (
          arith,
          e,
          l,
          get_elem?-below p.keys last m,
          length-take last p.keys,
          length-take last (set p.keys i m),
          length-set p.keys i m,
        )
  ]

  pub holds_nothing :
      (p : Random Rng) (j : Bytes) → IsIndexed p → length p.keys ≡ 0 → holds p j ≡ false
  unfolding holds
  holds_nothing p j v z = elim (Option-cases (lookup j p.idx)) [
    | inl e ↦ ground (arith, e)
    | inr (i, e) ↦ absurd (omega (arith, get_elem?-below p.keys i j (v.placed j i e), z))
  ]
