-- ===== src/Cache/Shard/Loop.antt =====
-- The loop of `enforceLimitsLocked`: an invariant rule, and its end.
use dist_cache.Base.{
  sym, ◌∙◌, ℕ, zero, suc, ◌<◌, ◌≡◌, ◌≢◌, true, false, none, some, List, [], arith, Bytes, bytes_eq,
  same, Option-cases, Bool-cases, inl, inr,
}
use dist_cache.Cache.Shard.{Shard, over_capacity, drop_victim, evict_loop, enforce_limits}
use dist_cache.Eviction.Policy.{Policy, Bounded}

module _ (p : Policy) (k : Bytes) where
  -- The shard after the policy has named its victim.
  abbrev pub asked : Shard p → Shard p
  asked s = record s { policy = (p.evict s.policy).0 }

  -- The shard whose victim was the protected key.
  abbrev pub readded : Shard p → Shard p
  readded s = record s { policy = p.add (p.evict s.policy).0 k }

  -- What keeps `P` in each round.
  pub record EvictRule (P : Shard p → List Bytes → Type 0) : Type 0 where
    pub none_left :
        (s : Shard p) (ev : List Bytes)
        → P s ev
        → over_capacity p s ≡ true
        → (p.evict s.policy).1 ≡ none
        → P (asked s) ev
    pub kept :
        (s : Shard p) (ev : List Bytes)
        → P s ev
        → over_capacity p s ≡ true
        → (p.evict s.policy).1 ≡ some k
        → P (readded s) ev
    pub dropped :
        (s : Shard p) (ev : List Bytes) (w : Bytes)
        → P s ev
        → over_capacity p s ≡ true
        → (p.evict s.policy).1 ≡ some w
        → w ≢ k
        → P (drop_victim p w (asked s) ev).0 (drop_victim p w (asked s) ev).1

  pub same_key : (w : Bytes) → same w k ≡ true → w ≡ k
  same_key w h = ground arith

  pub other_key : (w : Bytes) → same w k ≡ false → w ≢ k
  other_key w h = ground arith

  same_self : same k k ≡ true
  same_self = ground arith

  pub evict_rule :
      (P : Shard p → List Bytes → Type 0)
      → EvictRule P
      → (fuel : ℕ) (s : Shard p) (ev : List Bytes) → P s ev
      → P (evict_loop p fuel k s ev).0 (evict_loop p fuel k s ev).1
  unfolding evict_loop
  evict_rule P r zero s ev h = h
  evict_rule P r (suc fuel) s ev h = elim (Bool-cases (over_capacity p s)) [
    | inr under ↦ rw (under, evict_loop) h
    | inl over ↦ elim (Option-cases (p.evict s.policy).1) [
      | inl e ↦ rw (over, e, evict_loop) (r.none_left s ev h over e)
      | inr (w, e) ↦ elim (Bool-cases (same w k)) [
        | inl hit ↦
            rw (over, e, hit, same_key w hit, evict_loop)
              (r.kept s ev h over (rw (← same_key w hit) e))
        | inr miss ↦
            rw (over, e, miss, evict_loop)
              (evict_rule P r fuel _ _ (r.dropped s ev w h over e (other_key w miss)))
      ]
    ]
  ]

  -- The rounds, one equation for each way that a round ends.
  module _ (fuel : ℕ) (s : Shard p) (ks : List Bytes) where
    pub evict_under : over_capacity p s ≡ false → evict_loop p (suc fuel) k s ks ≡ (s, ks)
    unfolding evict_loop
    evict_under under = rw (under, evict_loop)

    module _ (over : over_capacity p s ≡ true) where
      pub evict_none : (p.evict s.policy).1 ≡ none → evict_loop p (suc fuel) k s ks ≡ (asked s, ks)
      unfolding evict_loop
      evict_none e = rw (over, e, evict_loop)

      pub evict_hit :
          (w : Bytes)
          → (p.evict s.policy).1 ≡ some w
          → same w k ≡ true
          → evict_loop p (suc fuel) k s ks
            ≡ (record s { policy = p.add (p.evict s.policy).0 w }, ks)
      unfolding evict_loop
      evict_hit w e hit = rw (over, e, hit, evict_loop)

      pub evict_next :
          (w : Bytes)
          → (p.evict s.policy).1 ≡ some w
          → same w k ≡ false
          → evict_loop p (suc fuel) k s ks
            ≡ evict_loop p fuel k (drop_victim p w (asked s) ks).0 (drop_victim p w (asked s) ks).1
      unfolding evict_loop
      evict_next w e miss = rw (over, e, miss, evict_loop)

  pub policy-drop_victim :
      (w : Bytes) (s : Shard p) (ks : List Bytes) → (drop_victim p w s ks).0.policy ≡ s.policy
  unfolding drop_victim
  policy-drop_victim w s ks = ground arith

  -- A dropped victim leaves fewer entries in the policy.
  pub weight-next :
      (b : Bounded p) (s : Shard p) (ks : List Bytes) (w : Bytes)
      → (p.evict s.policy).1 ≡ some w
      → p.weight (drop_victim p w (asked s) ks).0.policy < p.weight s.policy
  weight-next b s ks w e = rw (policy-drop_victim w (asked s) ks) (b.evict_weight s.policy w e)

  evict_loop_enough :
      (b : Bounded p) (f g : ℕ) (s : Shard p) (ks : List Bytes)
      → p.weight s.policy < f
      → p.weight s.policy < g
      → evict_loop p f k s ks ≡ evict_loop p g k s ks
  evict_loop_enough b zero g s ks h h' = absurd (omega arith)
  evict_loop_enough b (suc f) zero s ks h h' = absurd (omega arith)
  evict_loop_enough b (suc f) (suc g) s ks h h' = elim (Bool-cases (over_capacity p s)) [
    | inr under ↦ evict_under f s ks under ∙ sym (evict_under g s ks under)
    | inl over ↦ elim (Option-cases (p.evict s.policy).1) [
      | inl e ↦ evict_none f s ks over e ∙ sym (evict_none g s ks over e)
      | inr (w, e) ↦ elim (Bool-cases (same w k)) [
        | inl hit ↦ evict_hit f s ks over w e hit ∙ sym (evict_hit g s ks over w e hit)
        | inr miss ↦
            evict_next f s ks over w e miss
            ∙ evict_loop_enough b f g _ _ (omega (arith, weight-next b s ks w e))
                (omega (arith, weight-next b s ks w e))
            ∙ sym (evict_next g s ks over w e miss)
      ]
    ]
  ]

  -- Under a policy whose every victim leaves it with a lower weight, the fuel of
  -- `enforceLimitsLocked` is enough: the loop ends in the same shard, with the same victims, with
  -- any fuel above the weight of the policy.
  pub enforce_limits_ends :
      (b : Bounded p) (fuel : ℕ) (s : Shard p)
      → p.weight s.policy < fuel
      → evict_loop p fuel k s [] ≡ enforce_limits p k s
  unfolding enforce_limits
  enforce_limits_ends b fuel s h =
      evict_loop_enough b fuel (suc (p.weight s.policy)) s [] h (omega arith)
