-- ===== src/Cache/Shard/Limits.antt =====
-- Where `enforceLimitsLocked` ends: within the limits, or with the protected key alone.
use dist_cache.Base.{
  ℕ, zero, suc, ◌<◌, ◌≡◌, ◌∙◌, ap, sym, true, false, ◌⊎◌, some, List, [], arith, Bytes, bytes_eq,
  same, Option-cases, Bool-cases, inl, inr,
}
use dist_cache.Base.Assoc.{lookup}
use dist_cache.Base.Int64.{ℤ}
use dist_cache.Cache.Item.{Event, set_event}
use dist_cache.Cache.Shard.{Shard, emit, set_locked, over_capacity, evict_loop, enforce_limits}
use dist_cache.Cache.Shard.InStep.{IsInStep, is_some, step_rule, emit-IsInStep, set_locked-IsInStep}
use dist_cache.Cache.Shard.Loop.{
  asked, same_key, other_key, evict_under, evict_none, evict_hit, evict_next, policy-drop_victim,
  weight-next,
}
use dist_cache.Eviction.Policy.{Policy, Bounded, Tracking, Recency}

module _ {p : Policy} where
  module _ (t : Tracking p) (k : Bytes) where
    -- The shard is within its limits, or no key but `k` is left.
    abbrev pub Settled : Shard p → Type 0
    Settled s =
        (over_capacity p s ≡ false) ⊎ ((j : Bytes) → is_some (lookup j s.items) ≡ true → k ≡ j)

    evict_loop-Settled :
        (b : Bounded p) (r : Recency p t) (fuel : ℕ) (s : Shard p) (ks : List Bytes)
        → p.weight s.policy < fuel
        → IsInStep t s
        → r.IsNewest s.policy k
        → Settled (evict_loop p fuel k s ks).0
    evict_loop-Settled b r zero s ks h v n = absurd (omega arith)
    evict_loop-Settled b r (suc fuel) s ks h v n = elim (Bool-cases (over_capacity p s)) [
      | inr under ↦ rw (evict_under p k fuel s ks under) (inl under)
      | inl over ↦ elim (Option-cases (p.evict s.policy).1) [
        | inl e ↦ rw (evict_none p k fuel s ks over e) (
            inr (λ j held.
              absurd (ground (arith, held, t.no_victim s.policy j v.tracked e, v.in_step j))))
        | inr (w, e) ↦ elim (Bool-cases (same w k)) [
          | inl hit ↦ rw (evict_hit p k fuel s ks over w e hit) (
              inr (λ j held.
                r.newest_last s.policy k j v.tracked n (e ∙ ap some (same_key p k w hit))
                  (v.in_step j ∙ held)))
          | inr miss ↦ rw (evict_next p k fuel s ks over w e miss) (
              evict_loop-Settled b r fuel _ _ (omega (arith, weight-next p k b s ks w e))
                ((step_rule t k).dropped s ks w v over e (other_key p k w miss))
                (rw (policy-drop_victim p k w (asked p k s) ks)
                  (r.evict_newest s.policy k w v.tracked n e (λ c. other_key p k w miss (sym c)))))
        ]
      ]
    ]

    set_locked-IsNewest :
        (r : Recency p t) (x : Bytes) (e : ℤ) (s : Shard p)
        → IsInStep t s
        → r.IsNewest (set_locked p k x e s).policy k
    unfolding set_locked
    set_locked-IsNewest r x e s v = elim (Option-cases (lookup k s.items)) [
      | inl h ↦ rw (h, set_locked) (r.note_newest _ k e (r.add_newest s.policy k v.tracked))
      | inr (old, h) ↦
          rw (h, set_locked)
            (r.note_newest _ k e
              (r.access_newest s.policy k v.tracked (ground (arith, v.in_step k, h))))
    ]

    policy-emit : (ev : Event) (s : Shard p) → (emit p ev s).policy ≡ s.policy
    unfolding emit
    policy-emit ev s = ground arith

    pub enforce_limits-Settled :
        (b : Bounded p) (r : Recency p t) (x : Bytes) (e : ℤ) (s : Shard p)
        → IsInStep t s
        → Settled (enforce_limits p k (emit p (set_event k x e) (set_locked p k x e s))).0
    unfolding enforce_limits
    enforce_limits-Settled b r x e s v =
        evict_loop-Settled b r
          (suc (p.weight (emit p (set_event k x e) (set_locked p k x e s)).policy)) _ []
          (omega arith) (emit-IsInStep t _ _ (set_locked-IsInStep t k x e s v))
          (rw policy-emit (set_locked-IsNewest r x e s v))
