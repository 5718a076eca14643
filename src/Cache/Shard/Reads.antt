-- ===== src/Cache/Shard/Reads.antt =====
-- What the reading methods of shard.go see: the items that have not expired.
use dist_cache.Base.{
  ℕ, zero, suc, ◌≡◌, refl, ◌∙◌, Bool, true, false, Option, none, some, List, [], ◌∷◌, ◌++◌, arith,
  Bytes, bytes_eq, Option-cases, Bool-cases, inl, inr, if◌then◌else◌,
}
use dist_cache.Base.Assoc.{Assoc, lookup, erase, lookup-erase, Distinct}
use dist_cache.Base.Int64.{ℤ, pos}
use dist_cache.Cache.Item.{Item, expired, del_event}
use dist_cache.Cache.Shard
use dist_cache.Cache.Shard.{Shard, drop_item, remove_locked, emit, sweep_loop, export_of, keys_of}
use dist_cache.Cache.Shard.Evicted.{items-emit}
use dist_cache.Eviction.Policy.{Policy}

-- The item of a key that a client can see at a time.
unfoldable pub view : ℤ → Assoc Bytes Item → Bytes → Option Item
view now m k = elim (lookup k m) [
  | none ↦ none
  | some it ↦ if expired it now then none else some it
]

abbrev pub is_some : {A : Type 0} → Option A → Bool
is_some none = false
is_some (some a) = true

abbrev pub value_or_empty : Option Item → Bytes
value_or_empty none = []
value_or_empty (some it) = it.value

abbrev pub time_or_zero : Option Item → ℤ
time_or_zero none = pos 0
time_or_zero (some it) = it.expire_at

module _ {p : Policy} where
  items-drop_item :
      (k : Bytes) (it : Item) (s : Shard p) → (drop_item p k it s).items ≡ erase k s.items
  unfolding drop_item remove_locked
  items-drop_item k it s = items-emit (del_event k) _

  -- Dropping an expired item is seen by nobody.
  view-drop_item :
      (k j : Bytes) (now : ℤ) (it : Item) (s : Shard p)
      → lookup k s.items ≡ some it
      → expired it now ≡ true
      → view now (drop_item p k it s).items j ≡ view now s.items j
  unfolding view
  view-drop_item k j now it s h e = ground (arith, items-drop_item k it s, lookup-erase k j s.items)

  module _ (k : Bytes) (now : ℤ) (s : Shard p) (j : Bytes) where
    -- `get`, `exists` and `ttl` answer from the unexpired item of the key, if there is one, and
    -- leave every key's unexpired item as it was: expired items are dropped unseen.
    pub reads-view :
        ((Shard.get p k now s).1 ≡ value_or_empty (view now s.items k))
        × ((Shard.get p k now s).2 ≡ is_some (view now s.items k))
        × ((Shard.exists p k now s).1 ≡ is_some (view now s.items k))
        × ((Shard.ttl p k now s).1 ≡ time_or_zero (view now s.items k))
        × ((Shard.ttl p k now s).2 ≡ is_some (view now s.items k))
        × (view now (Shard.get p k now s).0.items j ≡ view now s.items j)
        × (view now (Shard.exists p k now s).0.items j ≡ view now s.items j)
        × (view now (Shard.ttl p k now s).0.items j ≡ view now s.items j)
    unfolding Shard.get Shard.exists Shard.ttl view
    reads-view = elim (Option-cases (lookup k s.items)) [
      | inl e ↦ (
        ground arith,
        ground arith,
        ground arith,
        ground arith,
        ground arith,
        ground arith,
        ground arith,
        ground arith,
      )
      | inr (it, e) ↦ (
        ground arith,
        ground arith,
        ground arith,
        ground arith,
        ground arith,
        ground (arith, view-drop_item k j now it s e),
        ground (arith, view-drop_item k j now it s e),
        ground (arith, view-drop_item k j now it s e),
      )
    ]

sweep_loop-view :
    {p : Policy} (now : ℤ) (n : ℕ) (m : Assoc Bytes Item) (s : Shard p) (ks : List Bytes)
    (j : Bytes)
    → Distinct m
    → ((i : Bytes) (it : Item) → lookup i m ≡ some it → lookup i s.items ≡ some it)
    → view now (sweep_loop p now n m s ks).0.items j ≡ view now s.items j
unfolding sweep_loop
sweep_loop-view now zero m s ks j u sub = refl
sweep_loop-view now (suc n) [] s ks j u sub = refl
sweep_loop-view {p} now (suc n) ((k, it) ∷ m) s ks j u sub = elim (Bool-cases (expired it now)) [
  | inl old ↦
      let e : lookup k s.items ≡ some it = sub k it (unfold lookup in ground arith) in
      rw (old, sweep_loop)
        (sweep_loop-view now n m (drop_item p k it s) (ks ++ k ∷ []) j u.1 (λ i x h.
            unfold lookup in
            ground (arith, items-drop_item k it s, sub i x, u.0, lookup-erase k i s.items))
          ∙ view-drop_item k j now it s e old)
  | inr live ↦
      rw (live, sweep_loop)
        (sweep_loop-view now n m s ks j u.1
          (λ i x h. unfold lookup in ground (arith, sub i x, u.0)))
]

-- When each key is bound once, the background sweep leaves every key's unexpired item as it was,
-- whatever the sample.
pub sweep_expired-view :
    {p : Policy} (now : ℤ) (sample : ℕ) (s : Shard p) (j : Bytes)
    → Distinct s.items
    → view now (Shard.sweep_expired p now sample s).0.items j ≡ view now s.items j
unfolding Shard.sweep_expired
sweep_expired-view now sample s j u = sweep_loop-view now sample s.items s [] j u (λ i it h. h)
