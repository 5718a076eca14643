-- ===== src/Ring/Owned.antt =====
-- Every point of the ring belongs to a node that is in it.
use dist_cache.Base.{
  ℕ, zero, suc, ◌<◌, ◌≤◌, ◌≡◌, ap, ◌∙◌, Bool-cases, inl, inr, true, false, some, List, [], ◌∷◌,
  Bytes, bytes_eq, nat_eq, length, All, ltb, ◌==◌, arith,
}
use dist_cache.Base.Assoc.{Assoc, lookup}
use dist_cache.Ring.{
  Ring, new_ring, vnode_key, member, put_sorted, sort_points, point_at, first_not_below, search,
  get,
}

-- The point has an owner.
abbrev pub HasOwner : Assoc ℕ Bytes → ℕ → Type 0
HasOwner m h = (n : Bytes) × (lookup h m ≡ some n)

module _ (hash : Bytes → ℕ) where
  -- An owner is a node of the ring, and the point is one of its points.
  pub record IsOwned (r : Ring) : Type 0 where
    pub known : (h : ℕ) (n : Bytes) → lookup h r.owners ≡ some n → member n r.nodes ≡ true
    pub placed :
        (h : ℕ) (n : Bytes)
        → lookup h r.owners ≡ some n
        → (i : ℕ) × (i < r.replicas) × (hash (vnode_key n i) ≡ h)
    pub owned : All (HasOwner r.owners) r.ring

  pub new_ring-IsOwned : (k : ℕ) → IsOwned (new_ring k)
  unfolding new_ring lookup
  new_ring-IsOwned k = record {
    known = λ h n e. absurd (ground (arith, e));
    placed = λ h n e. absurd (ground (arith, e));
    owned = tt;
  }

All-put_sorted : (P : ℕ → Type 0) (h : ℕ) (xs : List ℕ) → P h → All P xs → All P (put_sorted h xs)
unfolding put_sorted
All-put_sorted P h [] p a = (p, tt)
All-put_sorted P h (x ∷ xs) p a = elim (Bool-cases (ltb h x)) [
  | inl e ↦ rw (put_sorted, e) (p, a)
  | inr e ↦ rw (put_sorted, e) (a.0, All-put_sorted P h xs p a.1)
]

pub All-sort_points : (P : ℕ → Type 0) (xs : List ℕ) → All P xs → All P (sort_points xs)
unfolding sort_points
All-sort_points P [] a = tt
All-sort_points P (x ∷ xs) a = All-put_sorted P x (sort_points xs) a.0 (All-sort_points P xs a.1)

All-point_at : (P : ℕ → Type 0) (n : ℕ) (xs : List ℕ) → n < length xs → All P xs → P (point_at n xs)
All-point_at P n [] h a = absurd (omega (arith, h))
All-point_at P zero (x ∷ xs) h a = a.0
All-point_at P (suc n) (x ∷ xs) h a = All-point_at P n xs (omega (arith, h)) a.1

first_not_below-le : (h : ℕ) (xs : List ℕ) → first_not_below h xs ≤ length xs
unfolding first_not_below
first_not_below-le h [] = omega arith
first_not_below-le h (x ∷ xs) = ground (arith, first_not_below-le h xs)

search-lt : (h : ℕ) (xs : List ℕ) → (length xs == 0) ≡ false → search h xs < length xs
unfolding search
search-lt h xs e = ground (arith, first_not_below-le h xs, e)

module _ (hash : Bytes → ℕ) where
  -- The node of a key is a node of the ring.
  pub get-member :
      (key n : Bytes) (r : Ring)
      → IsOwned hash r
      → get hash key r ≡ some n
      → member n r.nodes ≡ true
  unfolding get
  get-member key n r o e = elim (Bool-cases (length r.ring == 0)) [
    | inl empty ↦ absurd (ground (arith, e, empty))
    | inr filled ↦
        let at = point_at (search (hash key) r.ring) r.ring in
        let (m, own) =
          All-point_at (HasOwner r.owners) (search (hash key) r.ring) r.ring
            (search-lt (hash key) r.ring filled) o.owned in
        o.known at n (own ∙ ap some (ground (arith, e, filled, own)))
  ]
