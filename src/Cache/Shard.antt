-- ===== src/Cache/Shard.antt =====
-- shard.go: one shard of the cache over any eviction policy. The mutex makes each method one
-- step; `emitted` is what the method hands to the sink, in order.
pub mod Accounting
pub mod Loop
pub mod EventLog
pub mod InStep
pub mod Evicted
pub mod Limits
pub mod Capacity
pub mod Keys
pub mod Reads
pub mod Calls
pub mod Replay
pub mod Methods
pub mod Memory
use dist_cache.Base.{
  ℕ, zero, suc, ◌+◌, ite, Bool, true, false, ◌&&◌, ◌||◌, not, Option, none, some, List, [], ◌∷◌,
  ◌++◌, length, Bytes, same, bytes_eq, if◌then◌else◌, map, ltb,
}
use dist_cache.Base.Assoc.{Assoc, lookup, insert, erase}
use dist_cache.Base.Int64.{ℤ, pos, ltz, ◌+ℤ◌, ◌-ℤ◌}
use dist_cache.Base.Decimal.{format_int, parse_int}
use dist_cache.Cache.Item.{
  Item, expired, approx_size, Event, set_event, del_event, expire_event, flush_event,
}
use dist_cache.Eviction.Policy.{Policy, note_with}

pub record Shard (p : Policy) : Type 0 where
  pub items : Assoc Bytes Item
  pub policy : p.State
  pub mem : ℤ
  pub max_entries : ℤ
  pub max_memory : ℤ
  -- `s.sink != nil`
  pub has_sink : Bool
  pub emitted : List Event

-- `s.mem -= n; if s.mem < 0 { s.mem = 0 }`
unfoldable pub lower_mem : ℤ → ℕ → ℤ
lower_mem mem n = let m = mem -ℤ pos n in if ltz m (pos 0) then pos 0 else m

module _ (p : Policy) where
  unfoldable pub new_shard : ℤ → ℤ → Bool → Shard p
  new_shard max_entries max_memory has_sink = record {
    items = [];
    policy = p.init;
    mem = pos 0;
    max_entries = max_entries;
    max_memory = max_memory;
    has_sink = has_sink;
    emitted = [];
  }

  unfoldable pub emit : Event → Shard p → Shard p
  emit ev s = if s.has_sink then record s { emitted = s.emitted ++ ev ∷ [] } else s

  unfoldable pub remove_locked : Bytes → Item → Shard p → Shard p
  remove_locked key it s = record s {
    items = erase key s.items;
    policy = p.remove s.policy key;
    mem = lower_mem s.mem (approx_size key it.value);
  }

  unfoldable pub set_locked : Bytes → Bytes → ℤ → Shard p → Shard p
  set_locked key value expire_at s = elim (lookup key s.items) [
    | some old ↦ record s {
      items = insert key (record { value = value; expire_at = expire_at }) s.items;
      policy = note_with p.note (p.access s.policy key) key expire_at;
      mem = s.mem +ℤ (pos (length value) -ℤ pos (length old.value));
    }
    | none ↦ record s {
      items = insert key (record { value = value; expire_at = expire_at }) s.items;
      policy = note_with p.note (p.add s.policy key) key expire_at;
      mem = s.mem +ℤ pos (approx_size key value);
    }
  ]

  unfoldable pub over_capacity : Shard p → Bool
  over_capacity s =
      (ltz (pos 0) s.max_entries && ltz s.max_entries (pos (length s.items)))
      || (ltz (pos 0) s.max_memory && ltz s.max_memory s.mem)

  -- `if it, ok := s.items[victim]; ok { … evicted = append(evicted, victim) }`
  unfoldable pub drop_victim : Bytes → Shard p → List Bytes → Shard p × List Bytes
  drop_victim victim s evicted = elim (lookup victim s.items) [
    | none ↦ (s, evicted)
    | some it ↦ (
      record s {
        items = erase victim s.items;
        mem = lower_mem s.mem (approx_size victim it.value);
      },
      evicted ++ victim ∷ [],
    )
  ]

  -- The loop of `enforceLimitsLocked`, with fuel for its rounds.
  unfoldable pub evict_loop : ℕ → Bytes → Shard p → List Bytes → Shard p × List Bytes
  evict_loop zero protected s evicted = (s, evicted)
  evict_loop (suc fuel) protected s evicted = elim (over_capacity s) [
    | false ↦ (s, evicted)
    | true ↦ elim (p.evict s.policy).1 [
      | none ↦ (record s { policy = (p.evict s.policy).0 }, evicted)
      | some victim ↦ elim (same victim protected) [
        | true ↦ (record s { policy = p.add (p.evict s.policy).0 victim }, evicted)
        | false ↦
            let next = drop_victim victim (record s { policy = (p.evict s.policy).0 }) evicted in
            evict_loop fuel protected next.0 next.1
      ]
    ]
  ]

  -- Every round but the last takes an entry out of the policy.
  unfoldable pub enforce_limits : Bytes → Shard p → Shard p × List Bytes
  unfolding evict_loop
  enforce_limits protected s = evict_loop (suc (p.weight s.policy)) protected s []

  -- `for _, k := range evicted { s.emit(Event{Op: OpDel, Key: k}) }`
  unfoldable pub emit_dels : List Bytes → Shard p → Shard p
  unfolding emit
  emit_dels [] s = s
  emit_dels (k ∷ ks) s = emit_dels ks (emit (del_event k) s)

  -- `removeLocked` and its event, for an item found to be expired or deleted
  unfoldable pub drop_item : Bytes → Item → Shard p → Shard p
  unfolding emit remove_locked
  drop_item key it s = emit (del_event key) (remove_locked key it s)

  -- The value, whether it was found, and the expired key or "".
  unfoldable pub get : Bytes → ℤ → Shard p → Shard p × Bytes × Bool × Bytes
  unfolding drop_item
  get key now s = elim (lookup key s.items) [
    | none ↦ (s, [], false, [])
    | some it ↦
        if expired it now
        then (drop_item key it s, [], false, key)
        else (record s { policy = p.access s.policy key }, it.value, true, [])
  ]

  -- `setLocked`, its event, `enforceLimitsLocked` and the events of the victims
  unfoldable pub store : Bytes → Bytes → ℤ → Shard p → Shard p × List Bytes
  unfolding set_locked emit enforce_limits emit_dels
  store key value expire_at s =
      let r =
        enforce_limits key
          (emit (set_event key value expire_at) (set_locked key value expire_at s)) in
      (emit_dels r.1 r.0, r.1)

  unfoldable pub set : Bytes → Bytes → ℤ → Shard p → Shard p × List Bytes
  unfolding store
  set key value expire_at s = store key value expire_at s

  unfoldable pub del : Bytes → Shard p → Shard p × Bool
  unfolding drop_item
  del key s = elim (lookup key s.items) [ none ↦ (s, false) | some it ↦ (drop_item key it s, true) ]

  unfoldable pub exists : Bytes → ℤ → Shard p → Shard p × Bool × Bytes
  unfolding drop_item
  exists key now s = elim (lookup key s.items) [
    | none ↦ (s, false, [])
    | some it ↦ if expired it now then (drop_item key it s, false, key) else (s, true, [])
  ]

  unfoldable pub expire : Bytes → ℤ → ℤ → Shard p → Shard p × Bool × Bytes
  unfolding drop_item emit
  expire key expire_at now s = elim (lookup key s.items) [
    | none ↦ (s, false, [])
    | some it ↦ if expired it now then (drop_item key it s, false, key) else (
      emit (expire_event key expire_at) (record s {
        items = insert key (record it { expire_at = expire_at }) s.items;
        policy = note_with p.note s.policy key expire_at;
      }),
      true,
      [],
    )
  ]

  unfoldable pub ttl : Bytes → ℤ → Shard p → Shard p × ℤ × Bool × Bytes
  unfolding drop_item
  ttl key now s = elim (lookup key s.items) [
    | none ↦ (s, pos 0, false, [])
    | some it ↦
        if expired it now
        then (drop_item key it s, pos 0, false, key)
        else (s, it.expire_at, true, [])
  ]

  -- The base of an increment: the shard without an expired item, and `none` for a value that is
  -- no integer.
  unfoldable pub incr_base : Bytes → ℤ → Shard p → Shard p × Option ℤ
  unfolding remove_locked
  incr_base key now s = elim (lookup key s.items) [
    | none ↦ (s, some (pos 0))
    | some it ↦
        if expired it now then (remove_locked key it s, some (pos 0)) else (s, parse_int it.value)
  ]

  -- The new value and the victims; `none` is `ErrNotInteger`.
  unfoldable pub incr_by : Bytes → ℤ → ℤ → Shard p → Shard p × Option (ℤ × List Bytes)
  unfolding incr_base store
  incr_by key delta now s =
      let (s', base) = incr_base key now s in
      elim base [
        | none ↦ (s', none)
        | some b ↦
            let r = store key (format_int (b +ℤ delta)) (pos 0) s' in (r.0, some (b +ℤ delta, r.1))
      ]

  unfoldable pub keys_of : ℤ → Assoc Bytes Item → List Bytes
  keys_of now [] = []
  keys_of now ((k, it) ∷ m) = let rest = keys_of now m in if expired it now then rest else k ∷ rest

  unfoldable pub keys : ℤ → Shard p → List Bytes
  unfolding keys_of
  keys now s = keys_of now s.items

  -- `for k := range s.items { s.policy.Remove(k) }`
  unfoldable pub forget_all : Assoc Bytes Item → p.State → p.State
  forget_all [] st = st
  forget_all ((k, it) ∷ m) st = forget_all m (p.remove st k)

  unfoldable pub flush_silent : Shard p → Shard p
  unfolding forget_all
  flush_silent s = record s { items = []; policy = forget_all s.items s.policy; mem = pos 0 }

  unfoldable pub flush : Shard p → Shard p
  unfolding emit flush_silent
  flush s = emit flush_event (flush_silent s)

  -- The loop of `sweepExpired` over the items that `range` yields until `sample` of them are seen.
  unfoldable pub sweep_loop : ℤ → ℕ → Assoc Bytes Item → Shard p → List Bytes → Shard p × List Bytes
  unfolding drop_item
  sweep_loop now zero m s expired_keys = (s, expired_keys)
  sweep_loop now (suc n) [] s expired_keys = (s, expired_keys)
  sweep_loop now (suc n) ((k, it) ∷ m) s expired_keys = elim (expired it now) [
    | true ↦ sweep_loop now n m (drop_item k it s) (expired_keys ++ k ∷ [])
    | false ↦ sweep_loop now n m s expired_keys
  ]

  unfoldable pub sweep_expired : ℤ → ℕ → Shard p → Shard p × List Bytes
  unfolding sweep_loop
  sweep_expired now sample s = sweep_loop now sample s.items s []

  unfoldable pub len : Shard p → ℕ
  len s = length s.items

  unfoldable pub mem_bytes : Shard p → ℤ
  mem_bytes s = s.mem

  -- What `export` hands to its callback, in order.
  unfoldable pub export_of : ℤ → Assoc Bytes Item → List (Bytes × Item)
  export_of now [] = []
  export_of now ((k, it) ∷ m) =
      let rest = export_of now m in if expired it now then rest else (k, it) ∷ rest

  unfoldable pub export : ℤ → Shard p → List (Bytes × Item)
  unfolding export_of
  export now s = export_of now s.items

  unfoldable pub apply_set : Bytes → Bytes → ℤ → Shard p → Shard p
  unfolding set_locked enforce_limits
  apply_set key value expire_at s = (enforce_limits key (set_locked key value expire_at s)).0

  unfoldable pub apply_del : Bytes → Shard p → Shard p
  unfolding remove_locked
  apply_del key s = elim (lookup key s.items) [ none ↦ s | some it ↦ remove_locked key it s ]

  unfoldable pub apply_expire : Bytes → ℤ → Shard p → Shard p
  apply_expire key expire_at s = elim (lookup key s.items) [
    | none ↦ s
    | some it ↦ record s {
      items = insert key (record it { expire_at = expire_at }) s.items;
      policy = note_with p.note s.policy key expire_at;
    }
  ]
