-- ===== src/Ring/Owners.antt =====
-- Whom a key belongs to.
use dist_cache.Base.{
  ℕ, ◌+◌, ◌≤◌, ◌≡◌, refl, false, ◌||◌, List, [], ◌∷◌, ◌++◌, Bytes, same, bytes_eq, nat_eq, length,
  take, drop, if◌then◌else◌, ltb, ◌==◌, arith, Bool-cases, inl, inr, length-append,
}
use dist_cache.Base.Assoc.{Assoc}
use dist_cache.Ring.{Ring, search, member, distinct_owners, get_n, owner_of}

-- No name stands twice.
abbrev pub AllDistinct : List Bytes → Type 0
AllDistinct [] = Unit
AllDistinct (x ∷ xs) = (member x xs ≡ false) × AllDistinct xs

member-snoc : (x y : Bytes) (xs : List Bytes) → member x (xs ++ y ∷ []) ≡ (member x xs || same y x)
member-snoc x y [] = ground arith
member-snoc x y (z ∷ xs) = ground (arith, member-snoc x y xs)

AllDistinct-snoc :
    (y : Bytes) (xs : List Bytes)
    → AllDistinct xs
    → member y xs ≡ false
    → AllDistinct (xs ++ y ∷ [])
AllDistinct-snoc y [] d h = (refl, tt)
AllDistinct-snoc y (z ∷ xs) (m, d) h =
    (ground (arith, member-snoc z y xs, m, h), AllDistinct-snoc y xs d (ground (arith, h)))

length-snoc : (y : Bytes) (xs : List Bytes) → length (xs ++ y ∷ []) ≡ length xs + 1
length-snoc y xs = length-append xs (y ∷ [])

module _ (hash : Bytes → ℕ) where
  distinct_owners_bounded :
      (m : Assoc ℕ Bytes) (n : ℕ) (hs : List ℕ) (out : List Bytes)
      → AllDistinct out
      → length out ≤ n
      → AllDistinct (distinct_owners hash m n hs out)
        × (length (distinct_owners hash m n hs out) ≤ n)
  unfolding distinct_owners
  distinct_owners_bounded m n [] out d b = (d, b)
  distinct_owners_bounded m n (h ∷ hs) out d b = elim (Bool-cases (ltb (length out) n)) [
    | inr f ↦ rw (distinct_owners, f) (d, b)
    | inl f ↦ elim (Bool-cases (member (owner_of h m) out)) [
      | inl g ↦ rw (distinct_owners, f, g) (distinct_owners_bounded m n hs out d b)
      | inr g ↦
          rw (distinct_owners, f, g)
            (distinct_owners_bounded m n hs (out ++ owner_of h m ∷ [])
              (AllDistinct-snoc (owner_of h m) out d g)
              (ground (arith, f, length-snoc (owner_of h m) out)))
    ]
  ]

  -- `GetN` gives at most `n` nodes, no more than the ring has, and none twice.
  pub get_n-AllDistinct :
      (key : Bytes) (n : ℕ) (r : Ring)
      → AllDistinct (get_n hash key n r)
        × (length (get_n hash key n r) ≤ n)
        × (length (get_n hash key n r) ≤ length r.nodes)
  unfolding get_n
  get_n-AllDistinct key n r = elim (Bool-cases ((length r.ring == 0) || (n == 0))) [
    | inl e ↦ rw (get_n, e) (tt, omega arith, omega arith)
    | inr e ↦
        let start : ℕ = search (hash key) r.ring in
        let bounded : AllDistinct
              (distinct_owners hash r.owners most (drop start r.ring ++ take start r.ring) [])
            × (length
                  (distinct_owners hash r.owners most (drop start r.ring ++ take start r.ring) [])
                ≤ most) =
          distinct_owners_bounded r.owners most (drop start r.ring ++ take start r.ring) [] tt
            (omega arith) in
        rw (get_n, e) (bounded.0, omega (arith, bounded.1, fewer), omega (arith, bounded.1, fewer))
  ]
    where
      most : ℕ
      most = if ltb (length r.nodes) n then length r.nodes else n

      fewer : (most ≤ n) × (most ≤ length r.nodes)
      fewer = (ground arith, ground arith)
