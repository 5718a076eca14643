-- ===== src/Cache/Shard/Evicted.antt =====
-- What `set` and `incrBy` leave in a shard: the evicted keys are exactly those that are reported,
-- and the written key is not among them.
use dist_cache.Base.{
  suc, ◌≡◌, ◌≢◌, refl, ◌∙◌, ite, Bool, false, ◌||◌, none, some, List, [], ◌∷◌, ◌++◌, arith, Bytes,
  Bytes-discrete, bytes_eq, same, Option-cases, inl, inr, if◌then◌else◌,
}
use dist_cache.Base.Assoc.{Assoc, lookup, insert, lookup-insert, lookup-erase}
use dist_cache.Base.Int64.{ℤ}
use dist_cache.Cache.Item.{Item, Event, set_event, del_event}
use dist_cache.Cache.Shard
use dist_cache.Cache.Shard.{Shard, emit, set_locked, emit_dels, enforce_limits, drop_victim, store}
use dist_cache.Cache.Shard.Loop.{evict_rule, asked}
use dist_cache.Eviction.Policy.{Policy}

unfoldable pub member : Bytes → List Bytes → Bool
member j [] = false
member j (k ∷ ks) = same k j || member j ks

member-snoc : (j w : Bytes) (ks : List Bytes) → member j (ks ++ w ∷ []) ≡ (member j ks || same w j)
unfolding member
member-snoc j w [] = ground arith
member-snoc j w (k ∷ ks) = ground (arith, member-snoc j w ks)

module _ {p : Policy} where
  -- The items are those of `m` without the keys of `ks`, and `k` is not one of those.
  record IsRest (m : Assoc Bytes Item) (k : Bytes) (s : Shard p) (ks : List Bytes) : Type 0 where
    rest : (j : Bytes) → lookup j s.items ≡ (if member j ks then none else lookup j m)
    protected : member k ks ≡ false

  drop_victim-IsRest :
      (m : Assoc Bytes Item) (k w : Bytes) (s : Shard p) (ks : List Bytes)
      → IsRest m k s ks
      → w ≢ k
      → IsRest m k (drop_victim p w s ks).0 (drop_victim p w s ks).1
  unfolding drop_victim
  drop_victim-IsRest m k w s ks r other = elim (Option-cases (lookup w s.items)) [
    | inl e ↦ rw (e, drop_victim) r
    | inr (it, e) ↦
        rw (e, drop_victim)
          (record {
            rest = λ j. ground (arith, r.rest j, lookup-erase w j s.items, member-snoc j w ks);
            protected = ground (arith, r.protected, member-snoc k w ks);
          })
  ]

  enforce_limits-IsRest :
      (k : Bytes) (s : Shard p) → IsRest s.items k (enforce_limits p k s).0 (enforce_limits p k s).1
  unfolding enforce_limits member
  enforce_limits-IsRest k s =
      evict_rule p k (IsRest s.items k)
        (record {
          none_left = λ u ks r over e. record { rest = r.rest; protected = r.protected };
          kept = λ u ks r over e. record { rest = r.rest; protected = r.protected };
          dropped = λ u ks w r over e other.
              drop_victim-IsRest s.items k w (asked p k u) ks
                (record { rest = r.rest; protected = r.protected }) other;
        })
        (suc (p.weight s.policy)) s [] (record { rest = λ j. refl; protected = refl })

  pub items-emit : (ev : Event) (s : Shard p) → (emit p ev s).items ≡ s.items
  unfolding emit
  items-emit ev s = ground arith

  pub items-emit_dels : (ks : List Bytes) (s : Shard p) → (emit_dels p ks s).items ≡ s.items
  unfolding emit_dels
  items-emit_dels [] s = refl
  items-emit_dels (k ∷ ks) s =
      items-emit_dels ks (emit p (del_event k) s) ∙ items-emit (del_event k) s

  pub items-set_locked :
      (k v : Bytes) (e : ℤ) (s : Shard p)
      → (set_locked p k v e s).items ≡ insert k (record { value = v; expire_at = e }) s.items
  unfolding set_locked
  items-set_locked k v e s = ground arith

  -- `set`, under any policy: the reported victims are gone, the written key is none of them and
  -- has the new value and expiry time, and every other key is as it was.
  pub lookup-set :
      (k v : Bytes) (e : ℤ) (s : Shard p) (j : Bytes)
      → (lookup j (Shard.set p k v e s).0.items ≡ (
          if member j (Shard.set p k v e s).1
          then none
          else ite
              (Bytes-discrete k j)
              (some (record { value = v; expire_at = e }))
              (lookup j s.items)))
        × (member k (Shard.set p k v e s).1 ≡ false)
  unfolding Shard.set store
  lookup-set k v e s j =
      let it : Item = record { value = v; expire_at = e } in
      let u : Shard p = emit p (set_event k v e) (set_locked p k v e s) in
      let r : IsRest u.items k (enforce_limits p k u).0 (enforce_limits p k u).1 =
        enforce_limits-IsRest k u in
      (
        ground (
          arith,
          items-emit_dels (enforce_limits p k u).1 (enforce_limits p k u).0,
          r.rest j,
          items-emit (set_event k v e) (set_locked p k v e s),
          items-set_locked k v e s,
          lookup-insert k j it s.items,
        ),
        r.protected,
      )
