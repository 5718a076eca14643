-- ===== src/Cache/Shard/EventLog.antt =====
-- The events of a shard tell its subscribers all that happens to its items: a map that applies
-- them, as `ApplyEvent` does, agrees with the shard.
use dist_cache.Base.{
  suc, ◌≡◌, ◌≢◌, refl, ◌∙◌, true, none, some, List, [], ◌∷◌, ◌++◌, arith, Bytes, bytes_eq,
  Option-cases, inl, inr, map, if◌then◌else◌, ◌==◌,
}
use dist_cache.Base.Assoc.{Assoc, lookup, insert, erase, lookup-insert, lookup-erase}
use dist_cache.Base.Int64.{ℤ}
use dist_cache.Cache.Item.{Item, Event, set_event, del_event, op_set, op_del, op_expire, op_flush}
use dist_cache.Cache.Shard.{
  Shard, emit, remove_locked, set_locked, emit_dels, enforce_limits, drop_item, drop_victim, store,
}
use dist_cache.Cache.Shard.Loop.{evict_rule, asked}
use dist_cache.Eviction.Policy.{Policy}
use mathlib.Core.List.{map-append}

-- The effect of an event on a plain map, without limits and eviction.
unfoldable pub apply_to : Event → Assoc Bytes Item → Assoc Bytes Item
apply_to ev m =
    if ev.op == op_set
    then insert ev.key (record { value = ev.value; expire_at = ev.expire_at }) m
    else if ev.op == op_del
    then erase ev.key m
    else if ev.op == op_expire
    then elim (lookup ev.key m) [
      | none ↦ m
      | some it ↦ insert ev.key (record it { expire_at = ev.expire_at }) m
    ]
    else if ev.op == op_flush
    then []
    else m

unfoldable pub replay : List Event → Assoc Bytes Item → Assoc Bytes Item
replay [] m = m
replay (ev ∷ evs) m = replay evs (apply_to ev m)

pub replay-append :
    (xs ys : List Event) (m : Assoc Bytes Item) → replay (xs ++ ys) m ≡ replay ys (replay xs m)
unfolding replay
replay-append [] ys m = refl
replay-append (x ∷ xs) ys m = replay-append xs ys (apply_to x m)

module _ (start : Assoc Bytes Item) where
  -- What the events so far, and the deletions still to be told, make of the starting map.
  told : List Event → List Bytes → Assoc Bytes Item
  told evs ks = replay (map del_event ks) (replay evs start)

  pub replay-snoc :
      (ev : Event) (evs : List Event)
      → replay (evs ++ ev ∷ []) start ≡ apply_to ev (replay evs start)
  replay-snoc ev evs = rw replay-append (unfold replay in refl)

  told-snoc :
      (evs : List Event) (ks : List Bytes) (k : Bytes)
      → told evs (ks ++ k ∷ []) ≡ erase k (told evs ks)
  unfolding told
  told-snoc evs ks k = rw (map-append, replay-append) (unfold replay apply_to in refl)

  told-cons :
      (evs : List Event) (ks : List Bytes) (k : Bytes)
      → told (evs ++ del_event k ∷ []) ks ≡ told evs (k ∷ ks)
  unfolding told
  told-cons evs ks k = rw replay-snoc (unfold replay in refl)

module _ (start : Assoc Bytes Item) {p : Policy} where
  -- The shard has a subscriber, and the events so far tell of all its items.
  pub record IsLogged (s : Shard p) : Type 0 where
    pub listened : s.has_sink ≡ true
    pub agrees : (j : Bytes) → lookup j (replay s.emitted start) ≡ lookup j s.items

  -- The same, with deletions still to be told.
  record Owes (s : Shard p) (ks : List Bytes) : Type 0 where
    listened : s.has_sink ≡ true
    agrees : (j : Bytes) → lookup j (told start s.emitted ks) ≡ lookup j s.items

  -- The same, for all keys but one.
  pub record LoggedBut (k : Bytes) (s : Shard p) : Type 0 where
    pub listened : s.has_sink ≡ true
    pub agrees : (j : Bytes) → k ≢ j → lookup j (replay s.emitted start) ≡ lookup j s.items

  emitted-emit :
      (ev : Event) (s : Shard p)
      → s.has_sink ≡ true
      → emit p ev s ≡ record s { emitted = s.emitted ++ ev ∷ [] }
  unfolding emit
  emitted-emit ev s h = rw h

  drop_victim-Owes :
      (k : Bytes) (s : Shard p) (ks : List Bytes)
      → Owes s ks
      → Owes (drop_victim p k s ks).0 (drop_victim p k s ks).1
  unfolding drop_victim
  drop_victim-Owes k s ks o = elim (Option-cases (lookup k s.items)) [
    | inl e ↦ rw (e, drop_victim) o
    | inr (it, e) ↦
        rw (e, drop_victim)
          (record {
            listened = o.listened;
            agrees = λ j. rw told-snoc (
                ground (
                  arith,
                  lookup-erase k j (told start s.emitted ks),
                  lookup-erase k j s.items,
                  o.agrees j,
                ));
          })
  ]

  enforce_limits-Owes :
      (k : Bytes) (s : Shard p)
      → IsLogged s
      → Owes (enforce_limits p k s).0 (enforce_limits p k s).1
  unfolding enforce_limits
  enforce_limits-Owes k s l =
      evict_rule p k Owes
        (record {
          none_left = λ s ks o over e. record { listened = o.listened; agrees = o.agrees };
          kept = λ s ks o over e. record { listened = o.listened; agrees = o.agrees };
          dropped = λ s ks w o over e other.
              drop_victim-Owes w (asked p k s) ks
                (record { listened = o.listened; agrees = o.agrees });
        })
        (suc (p.weight s.policy)) s []
        (record { listened = l.listened; agrees = λ j. unfold told replay in l.agrees j })

  emit_dels-IsLogged : (ks : List Bytes) (s : Shard p) → Owes s ks → IsLogged (emit_dels p ks s)
  unfolding emit_dels
  emit_dels-IsLogged [] s o = record {
    listened = o.listened;
    agrees = λ j. unfold told replay in o.agrees j;
  }
  emit_dels-IsLogged (k ∷ ks) s o = rw (emitted-emit (del_event k) s o.listened) (
      emit_dels-IsLogged ks _
        (record { listened = o.listened; agrees = λ j. rw told-cons (o.agrees j) }))

  -- An event that tells of a change to one key settles that key.
  pub emit-IsLogged :
      (ev : Event) (s : Shard p)
      → s.has_sink ≡ true
      → ((j : Bytes) → lookup j (apply_to ev (replay s.emitted start)) ≡ lookup j s.items)
      → IsLogged (emit p ev s)
  emit-IsLogged ev s on h =
      rw (emitted-emit ev s on) (record { listened = on; agrees = λ j. rw replay-snoc (h j) })

  items-set_locked :
      (k v : Bytes) (e : ℤ) (s : Shard p)
      → (set_locked p k v e s).items ≡ insert k (record { value = v; expire_at = e }) s.items
  unfolding set_locked
  items-set_locked k v e s = ground arith

  same-set_locked :
      (k v : Bytes) (e : ℤ) (s : Shard p)
      → ((set_locked p k v e s).emitted ≡ s.emitted)
        × ((set_locked p k v e s).has_sink ≡ s.has_sink)
  unfolding set_locked
  same-set_locked k v e s = ground arith

  pub store-IsLogged :
      (k v : Bytes) (e : ℤ) (s : Shard p) → LoggedBut k s → IsLogged (store p k v e s).0
  unfolding store
  store-IsLogged k v e s l =
      emit_dels-IsLogged (enforce_limits p k (emit p (set_event k v e) (set_locked p k v e s))).1 _
        (enforce_limits-Owes k _ (
          emit-IsLogged (set_event k v e) (set_locked p k v e s)
            ((same-set_locked k v e s).1 ∙ l.listened)
            (λ j. rw ((same-set_locked k v e s).0, items-set_locked) (set_agrees j))))
    where
      it : Item
      it = record { value = v; expire_at = e }

      set_agrees :
          (j : Bytes)
          → lookup j (apply_to (set_event k v e) (replay s.emitted start))
            ≡ lookup j (insert k it s.items)
      set_agrees j =
          unfold apply_to in
          ground (
            arith,
            lookup-insert k j it (replay s.emitted start),
            lookup-insert k j it s.items,
            l.agrees j,
          )

  pub drop_item-IsLogged :
      (k : Bytes) (it : Item) (s : Shard p) → IsLogged s → IsLogged (drop_item p k it s)
  unfolding drop_item remove_locked
  drop_item-IsLogged k it s l = emit-IsLogged (del_event k) _ l.listened (λ j.
      unfold apply_to in
      ground
        (arith, lookup-erase k j (replay s.emitted start), lookup-erase k j s.items, l.agrees j))
