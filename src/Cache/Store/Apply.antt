-- ===== src/Cache/Store/Apply.antt =====
-- `ApplyEvent` on a cache without limits, as a replica and a recovery use it: the cache follows the
-- events as one map does.
use dist_cache.Base.{
  ℕ, ◌≡◌, refl, ite, ap, true, false, Option, none, some, List, [], ◌∷◌, Bytes, Bytes-discrete,
  bytes_eq, ◌==◌, arith, Bool-cases, Option-cases, inl, inr,
}
use dist_cache.Base.Assoc.{Assoc, lookup, lookup-insert, lookup-erase}
use dist_cache.Base.Int64.{ℤ, pos}
use dist_cache.Cache.Item.{Item, Event, op_set, op_del, op_expire, op_flush}
use dist_cache.Cache.Shard
use dist_cache.Cache.Shard.{Shard, over_capacity, enforce_limits, set_locked, remove_locked}
use dist_cache.Cache.Shard.EventLog.{apply_to, replay}
use dist_cache.Cache.Shard.Evicted.{items-set_locked}
use dist_cache.Cache.Shard.Loop.{evict_under}
use dist_cache.Cache.Store.{Cache, index, shard_for, put_shard, apply_event, new_cache, per_shard}
use dist_cache.Cache.Store.Routing.{stored, stored-put_shard, same_index, other_index}
use dist_cache.Eviction.Policy.{Policy}

-- The item with another expiry time.
abbrev pub re_timed : ℤ → Option Item → Option Item
re_timed e none = none
re_timed e (some it) = some (record it { expire_at = e })

module _ {p : Policy} where
  -- A shard, and a cache, without limits.
  pub record IsUnlimited (s : Shard p) : Type 0 where
    pub entries : s.max_entries ≡ pos 0
    pub memory : s.max_memory ≡ pos 0

  IsUnlimited-over_capacity : (s : Shard p) → IsUnlimited s → over_capacity p s ≡ false
  unfolding over_capacity
  IsUnlimited-over_capacity s u = ground (arith, u.entries, u.memory)

  set_locked-IsUnlimited :
      (k v : Bytes) (e : ℤ) (s : Shard p) → IsUnlimited s → IsUnlimited (set_locked p k v e s)
  unfolding set_locked
  set_locked-IsUnlimited k v e s u = record {
    entries = ground (arith, u.entries);
    memory = ground (arith, u.memory);
  }

  -- Without limits nothing is evicted.
  apply_set-set_locked :
      (k v : Bytes) (e : ℤ) (s : Shard p)
      → IsUnlimited s
      → Shard.apply_set p k v e s ≡ set_locked p k v e s
  unfolding Shard.apply_set enforce_limits
  apply_set-set_locked k v e s u =
      ap (λ r. r.0)
        (evict_under p k _ (set_locked p k v e s) []
          (IsUnlimited-over_capacity (set_locked p k v e s) (set_locked-IsUnlimited k v e s u)))

  lookup-apply_set :
      (k v : Bytes) (e : ℤ) (s : Shard p) (j : Bytes)
      → IsUnlimited s
      → lookup j (Shard.apply_set p k v e s).items
        ≡ ite (Bytes-discrete k j) (some (record { value = v; expire_at = e })) (lookup j s.items)
  lookup-apply_set k v e s j u = ground (
    arith,
    ap (λ t. lookup j t.items) (apply_set-set_locked k v e s u),
    ap (lookup j) (items-set_locked k v e s),
    lookup-insert k j (record { value = v; expire_at = e }) s.items,
  )

  lookup-apply_del :
      (k : Bytes) (s : Shard p) (j : Bytes)
      → lookup j (Shard.apply_del p k s).items ≡ ite (Bytes-discrete k j) none (lookup j s.items)
  unfolding Shard.apply_del remove_locked
  lookup-apply_del k s j = ground (arith, lookup-erase k j s.items)

  lookup-apply_expire :
      (k : Bytes) (e : ℤ) (s : Shard p) (j : Bytes)
      → lookup j (Shard.apply_expire p k e s).items
        ≡ ite (Bytes-discrete k j) (re_timed e (lookup k s.items)) (lookup j s.items)
  unfolding Shard.apply_expire
  lookup-apply_expire k e s j = elim (Option-cases (lookup k s.items)) [
    | inl h ↦ ground arith
    | inr (it, h) ↦ ground (arith, lookup-insert k j (record it { expire_at = e }) s.items)
  ]

pub lookup-apply_to_set :
    (ev : Event) (m : Assoc Bytes Item) (j : Bytes)
    → ev.op == op_set ≡ true
    → lookup j (apply_to ev m)
      ≡ ite
          (Bytes-discrete ev.key j)
          (some (record { value = ev.value; expire_at = ev.expire_at }))
          (lookup j m)
unfolding apply_to
lookup-apply_to_set ev m j h =
    ground (arith, lookup-insert ev.key j (record { value = ev.value; expire_at = ev.expire_at }) m)

pub lookup-apply_to_del :
    (ev : Event) (m : Assoc Bytes Item) (j : Bytes)
    → ev.op == op_set ≡ false
    → ev.op == op_del ≡ true
    → lookup j (apply_to ev m) ≡ ite (Bytes-discrete ev.key j) none (lookup j m)
unfolding apply_to
lookup-apply_to_del ev m j g h = rw (apply_to, g, h) (lookup-erase ev.key j m)

pub lookup-apply_to_expire :
    (ev : Event) (m : Assoc Bytes Item) (j : Bytes)
    → ev.op == op_set ≡ false
    → ev.op == op_del ≡ false
    → ev.op == op_expire ≡ true
    → lookup j (apply_to ev m)
      ≡ ite (Bytes-discrete ev.key j) (re_timed ev.expire_at (lookup ev.key m)) (lookup j m)
unfolding apply_to
lookup-apply_to_expire ev m j g g' h = elim (Option-cases (lookup ev.key m)) [
  | inl e ↦ rw (apply_to, g, g', h) (ground arith)
  | inr (it, e) ↦
      rw (apply_to, g, g', h)
        (ground (arith, lookup-insert ev.key j (record it { expire_at = ev.expire_at }) m))
]

module _ (hash : Bytes → ℕ) {p : Policy} where
  -- A cache without limits that stores what a map has.
  pub record Follows (m : Assoc Bytes Item) (c : Cache p) : Type 0 where
    pub unlimited : (i : ℕ) → IsUnlimited (c.shard i)
    pub agrees : (j : Bytes) → stored hash c j ≡ lookup j m

  put_shard-Follows :
      (k : Bytes) (s : Shard p) (o : Option Item) (m n : Assoc Bytes Item) (c : Cache p)
      → IsUnlimited s
      → ((j : Bytes)
          → lookup j s.items ≡ ite (Bytes-discrete k j) o (lookup j (shard_for hash k c).items))
      → ((j : Bytes) → lookup j n ≡ ite (Bytes-discrete k j) o (lookup j m))
      → Follows m c
      → Follows n (put_shard hash k s c)
  put_shard-Follows k s o m n c u own told f = record {
    unlimited = λ i. unfold put_shard in ground (arith, u, f.unlimited i);
    agrees = λ j. elim (Bool-cases (index hash j c == index hash k c)) [
      | inl there ↦
          unfold stored in
          ground (
            arith,
            there,
            stored-put_shard hash k j s c,
            own j,
            told j,
            f.agrees j,
            same_index hash k j c there,
          )
      | inr elsewhere ↦ ground (
        arith,
        elsewhere,
        stored-put_shard hash k j s c,
        told j,
        f.agrees j,
        other_index hash k j c elsewhere,
      )
    ];
  }

  apply_set-IsUnlimited :
      (k v : Bytes) (e : ℤ) (s : Shard p) → IsUnlimited s → IsUnlimited (Shard.apply_set p k v e s)
  apply_set-IsUnlimited k v e s u =
      rw (apply_set-set_locked k v e s u) (set_locked-IsUnlimited k v e s u)

  apply_del-IsUnlimited :
      (k : Bytes) (s : Shard p) → IsUnlimited s → IsUnlimited (Shard.apply_del p k s)
  unfolding Shard.apply_del remove_locked
  apply_del-IsUnlimited k s u = record {
    entries = ground (arith, u.entries);
    memory = ground (arith, u.memory);
  }

  apply_expire-IsUnlimited :
      (k : Bytes) (e : ℤ) (s : Shard p) → IsUnlimited s → IsUnlimited (Shard.apply_expire p k e s)
  unfolding Shard.apply_expire
  apply_expire-IsUnlimited k e s u = record {
    entries = ground (arith, u.entries);
    memory = ground (arith, u.memory);
  }

  pub flushed-Follows :
      (c : Cache p)
      → ((i : ℕ) → IsUnlimited (c.shard i))
      → Follows [] (record c { shard = λ i. Shard.flush_silent p (c.shard i) })
  unfolding Shard.flush_silent
  flushed-Follows c u = record {
    unlimited = λ i. record { entries = (u i).entries; memory = (u i).memory };
    agrees = λ j. unfold stored shard_for lookup in refl;
  }

  rest-Follows :
      (ev : Event) (m : Assoc Bytes Item) (c : Cache p)
      → ev.op == op_set ≡ false
      → ev.op == op_del ≡ false
      → ev.op == op_expire ≡ false
      → Follows m c
      → Follows (apply_to ev m) (apply_event hash ev c)
  unfolding apply_event apply_to
  rest-Follows ev m c a b d f = elim (Bool-cases (ev.op == op_flush)) [
    | inl g ↦ rw (apply_event, a, b, d, g, apply_to) (flushed-Follows c f.unlimited)
    | inr g ↦ rw (apply_event, a, b, d, g, apply_to) f
  ]

  -- A cache without limits that stores what a map has, under any policy: after an event it stores
  -- what the map has after the event.
  pub apply_event-Follows :
      (ev : Event) (m : Assoc Bytes Item) (c : Cache p)
      → Follows m c
      → Follows (apply_to ev m) (apply_event hash ev c)
  unfolding apply_event
  apply_event-Follows ev m c f = elim (Bool-cases (ev.op == op_set)) [
    | inl a ↦
        rw (apply_event, a)
          (put_shard-Follows ev.key (Shard.apply_set p ev.key ev.value ev.expire_at here) _ m _ c
            (apply_set-IsUnlimited ev.key ev.value ev.expire_at here unlimited)
            (λ j. lookup-apply_set ev.key ev.value ev.expire_at here j unlimited)
            (λ j. lookup-apply_to_set ev m j a) f)
    | inr a ↦ elim (Bool-cases (ev.op == op_del)) [
      | inl b ↦
          rw (apply_event, a, b)
            (put_shard-Follows ev.key (Shard.apply_del p ev.key here) none m _ c
              (apply_del-IsUnlimited ev.key here unlimited) (lookup-apply_del ev.key here)
              (λ j. lookup-apply_to_del ev m j a b) f)
      | inr b ↦ elim (Bool-cases (ev.op == op_expire)) [
        | inl d ↦
            rw (apply_event, a, b, d)
              (put_shard-Follows ev.key (Shard.apply_expire p ev.key ev.expire_at here)
                (re_timed ev.expire_at (lookup ev.key m)) m _ c
                (apply_expire-IsUnlimited ev.key ev.expire_at here unlimited)
                (λ j.
                  unfold stored in
                  ground (arith, lookup-apply_expire ev.key ev.expire_at here j, f.agrees ev.key))
                (λ j. lookup-apply_to_expire ev m j a b d) f)
        | inr d ↦ rest-Follows ev m c a b d f
      ]
    ]
  ]
    where
      here : Shard p
      here = shard_for hash ev.key c

      unlimited : IsUnlimited here
      unlimited = unfold shard_for in f.unlimited _

  -- The events in order.
  unfoldable pub apply_events : List Event → Cache p → Cache p
  apply_events [] c = c
  apply_events (ev ∷ evs) c = apply_events evs (apply_event hash ev c)

  pub apply_events-Follows :
      (evs : List Event) (m : Assoc Bytes Item) (c : Cache p)
      → Follows m c
      → Follows (replay evs m) (apply_events evs c)
  unfolding apply_events replay
  apply_events-Follows [] m c f = f
  apply_events-Follows (ev ∷ evs) m c f =
      apply_events-Follows evs (apply_to ev m) (apply_event hash ev c)
        (apply_event-Follows ev m c f)

-- A new cache without limits, of any number of shards and under any policy: after it has applied
-- any events in order it stores, for every key, what a map that starts empty has after them.
pub apply_events-replay :
    (hash : Bytes → ℕ) (p : Policy) (shards : ℤ) (evs : List Event) (j : Bytes)
    → stored hash (apply_events hash evs (new_cache p shards (pos 0) (pos 0))) j
      ≡ lookup j (replay evs [])
apply_events-replay hash p shards evs j = (apply_events-Follows hash evs [] _ new).agrees j
  where
    new : Follows hash [] (new_cache p shards (pos 0) (pos 0))
    new =
        unfold new_cache Shard.new_shard per_shard in
        record {
          unlimited = λ i. record { entries = refl; memory = refl };
          agrees = λ j. unfold stored shard_for lookup in refl;
        }
