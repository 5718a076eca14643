-- ===== src/Cache/Shard/InStep.antt =====
-- A policy that tracks its keys holds exactly the keys of the shard.
use dist_cache.Base.{
  suc, ◌≡◌, ◌∙◌, ite, Bool, true, false, Option, none, some, List, [], ◌∷◌, arith, Bytes,
  Bytes-discrete, bytes_eq, Option-cases, inl, inr,
}
use dist_cache.Base.Assoc.{Assoc, lookup, insert, lookup-insert, lookup-erase}
use dist_cache.Base.Int64.{ℤ}
use dist_cache.Cache.Item.{Item, Event, set_event}
use dist_cache.Cache.Shard.{
  Shard, emit, remove_locked, set_locked, emit_dels, enforce_limits, drop_item, drop_victim, store,
}
use dist_cache.Cache.Shard.Loop.{EvictRule, evict_rule, asked, readded}
use dist_cache.Eviction.Policy.{Policy, Tracking, note_with}

abbrev pub is_some : {A : Type 0} → Option A → Bool
is_some none = false
is_some (some a) = true

module _ {p : Policy} (t : Tracking p) where
  pub record IsInStep (s : Shard p) : Type 0 where
    pub tracked : t.IsValid s.policy
    pub in_step : (j : Bytes) → t.holds s.policy j ≡ is_some (lookup j s.items)

  pub IsInStep-same :
      (s u : Shard p) → u.policy ≡ s.policy → u.items ≡ s.items → IsInStep s → IsInStep u
  IsInStep-same s u ep ei v = record {
    tracked = rw ep v.tracked;
    in_step = λ j. rw (ep, ei) (v.in_step j);
  }

  pub emit-IsInStep : (ev : Event) (s : Shard p) → IsInStep s → IsInStep (emit p ev s)
  unfolding emit
  emit-IsInStep ev s v = IsInStep-same s (emit p ev s) (ground arith) (ground arith) v

  pub emit_dels-IsInStep :
      (ks : List Bytes) (s : Shard p) → IsInStep s → IsInStep (emit_dels p ks s)
  unfolding emit_dels
  emit_dels-IsInStep [] s v = v
  emit_dels-IsInStep (k ∷ ks) s v = emit_dels-IsInStep ks _ (emit-IsInStep _ s v)

  pub remove_locked-IsInStep :
      (k : Bytes) (it : Item) (s : Shard p) → IsInStep s → IsInStep (remove_locked p k it s)
  unfolding remove_locked
  remove_locked-IsInStep k it s v = record {
    tracked = t.remove-IsValid s.policy k v.tracked;
    in_step = λ j.
        ground
          (arith, t.holds-remove s.policy k j v.tracked, lookup-erase k j s.items, v.in_step j);
  }

  pub drop_item-IsInStep :
      (k : Bytes) (it : Item) (s : Shard p) → IsInStep s → IsInStep (drop_item p k it s)
  unfolding drop_item
  drop_item-IsInStep k it s v = emit-IsInStep _ _ (remove_locked-IsInStep k it s v)

  pub access-IsInStep :
      (k : Bytes) (s : Shard p) → IsInStep s → IsInStep (record s { policy = p.access s.policy k })
  access-IsInStep k s v = record {
    tracked = t.access-IsValid s.policy k v.tracked;
    in_step = λ j. t.holds-access s.policy k j v.tracked ∙ v.in_step j;
  }

  -- A key that the policy holds is written, and its expiry time noted.
  noted :
      (k : Bytes) (it : Item) (e : ℤ) (st : p.State) (m : Assoc Bytes Item)
      → t.IsValid st
      → ((j : Bytes) → t.holds st j ≡ ite (Bytes-discrete k j) true (is_some (lookup j m)))
      → (j : Bytes) → t.holds (note_with p.note st k e) j ≡ is_some (lookup j (insert k it m))
  noted k it e st m v h j =
      ground (arith, t.holds-note st k j e v, h k, h j, lookup-insert k j it m)

  pub set_locked-IsInStep :
      (k x : Bytes) (e : ℤ) (s : Shard p) → IsInStep s → IsInStep (set_locked p k x e s)
  unfolding set_locked
  set_locked-IsInStep k x e s v = elim (Option-cases (lookup k s.items)) [
    | inl h ↦
        rw (h, set_locked)
          (record {
            tracked = t.note-IsValid _ k e (t.add-IsValid s.policy k v.tracked);
            in_step =
                noted k _ e _ s.items (t.add-IsValid s.policy k v.tracked)
                  (λ j. ground (arith, t.holds-add s.policy k j v.tracked, v.in_step j));
          })
    | inr (old, h) ↦
        rw (h, set_locked)
          (record {
            tracked = t.note-IsValid _ k e (t.access-IsValid s.policy k v.tracked);
            in_step =
                noted k _ e _ s.items (t.access-IsValid s.policy k v.tracked)
                  (λ j. ground (arith, h, t.holds-access s.policy k j v.tracked, v.in_step j));
          })
  ]

  pub re_timed-IsInStep :
      (k : Bytes) (e : ℤ) (it old : Item) (s : Shard p)
      → IsInStep s
      → lookup k s.items ≡ some old
      → IsInStep (record s { items = insert k it s.items; policy = note_with p.note s.policy k e })
  re_timed-IsInStep k e it old s v h = record {
    tracked = t.note-IsValid s.policy k e v.tracked;
    in_step = noted k it e s.policy s.items v.tracked (λ j. ground (arith, h, v.in_step j));
  }

  -- A victim leaves the items when it has left the policy.
  evicted-IsInStep :
      (s : Shard p) (ks : List Bytes) (w : Bytes)
      → IsInStep s
      → (p.evict s.policy).1 ≡ some w
      → IsInStep (drop_victim p w (asked p w s) ks).0
  unfolding drop_victim
  evicted-IsInStep s ks w v e = elim (Option-cases (lookup w s.items)) [
    | inl h ↦ absurd (ground (arith, v.in_step w, t.victim_held s.policy w v.tracked e))
    | inr (it, h) ↦
        rw (h, drop_victim)
          (record {
            tracked = t.evict-IsValid s.policy v.tracked;
            in_step = λ j. ground (
              arith,
              t.holds-evict s.policy w j v.tracked e,
              v.in_step j,
              lookup-erase w j s.items,
            );
          })
  ]

  readded-IsInStep :
      (s : Shard p) (k : Bytes)
      → IsInStep s
      → (p.evict s.policy).1 ≡ some k
      → IsInStep (readded p k s)
  readded-IsInStep s k v e = record {
    tracked = t.add-IsValid _ k (t.evict-IsValid s.policy v.tracked);
    in_step = λ j. ground (
      arith,
      t.holds-add (p.evict s.policy).0 k j (t.evict-IsValid s.policy v.tracked),
      t.holds-evict s.policy k j v.tracked e,
      t.victim_held s.policy k v.tracked e,
      v.in_step j,
    );
  }

  asked-IsInStep :
      (s : Shard p) (k : Bytes) → IsInStep s → (p.evict s.policy).1 ≡ none → IsInStep (asked p k s)
  asked-IsInStep s k v e = record {
    tracked = t.evict-IsValid s.policy v.tracked;
    in_step = λ j. t.no_victim_state s.policy j e ∙ v.in_step j;
  }

  pub step_rule : (k : Bytes) → EvictRule p k (λ s ks. IsInStep s)
  step_rule k = record {
    none_left = λ s ks v over e. asked-IsInStep s k v e;
    kept = λ s ks v over e. readded-IsInStep s k v e;
    dropped = λ s ks w v over e other. evicted-IsInStep s ks w v e;
  }

  pub enforce_limits-IsInStep :
      (k : Bytes) (s : Shard p) → IsInStep s → IsInStep (enforce_limits p k s).0
  unfolding enforce_limits
  enforce_limits-IsInStep k s v =
      evict_rule p k (λ s ks. IsInStep s) (step_rule k) (suc (p.weight s.policy)) s [] v

  pub store-IsInStep :
      (k x : Bytes) (e : ℤ) (s : Shard p) → IsInStep s → IsInStep (store p k x e s).0
  unfolding store
  store-IsInStep k x e s v =
      emit_dels-IsInStep (enforce_limits p k (emit p (set_event k x e) (set_locked p k x e s))).1 _
        (enforce_limits-IsInStep k _
          (emit-IsInStep (set_event k x e) _ (set_locked-IsInStep k x e s v)))
