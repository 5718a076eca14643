-- ===== src/Eviction/Drain.antt =====
-- policy.go: evictions one after another, over any policy that keeps the laws.
use dist_cache.Base.{
  ℕ, zero, suc, ◌≤◌, ◌≡◌, Bool, false, ◌||◌, same, none, some, List, [], ◌∷◌, Bytes, bytes_eq,
  arith, Option-cases, inl, inr,
}
use dist_cache.Eviction.Policy.{Policy, Bounded, Tracking}

-- The victims of the next `n` evictions, up to the first that names none.
unfoldable pub victims : (p : Policy) → ℕ → p.State → List Bytes
victims p zero s = []
victims p (suc n) s =
    let rest = victims p n (p.evict s).0 in elim (p.evict s).1 [ none ↦ [] | some k ↦ k ∷ rest ]

abbrev pub is_among : Bytes → List Bytes → Bool
is_among k [] = false
is_among k (j ∷ ks) = same j k || is_among k ks

module _ (p : Policy) (t : Tracking p) (b : Bounded p) where
  -- Evictions alone reach every key that is held, and no other.
  pub is_among-victims :
      (n : ℕ) (s : p.State) (k : Bytes)
      → t.IsValid s
      → p.weight s ≤ n
      → is_among k (victims p n s) ≡ t.holds s k
  unfolding victims
  is_among-victims zero s k v w = elim (Option-cases (p.evict s).1) [
    | inl e ↦ ground (arith, t.no_victim s k v e)
    | inr (j, e) ↦ absurd (omega (arith, b.evict_weight s j e, w))
  ]
  is_among-victims (suc n) s k v w = elim (Option-cases (p.evict s).1) [
    | inl e ↦ rw (e, is_among) (ground (arith, t.no_victim s k v e))
    | inr (j, e) ↦
        rw (e, is_among)
          (ground (
            arith,
            t.holds-evict s j k v e,
            t.victim_held s j v e,
            is_among-victims n (p.evict s).0 k (t.evict-IsValid s v),
            b.evict_weight s j e,
          ))
  ]
