-- ===== src/Cache/Store/Routing.antt =====
-- What a client of the cache sees: the cache as one map, whatever its shards.
use dist_cache.Base.{
  ℕ, zero, suc, ◌+◌, ◌*◌, ◌^◌, ◌≤◌, ◌<◌, ◌≡◌, ◌≢◌, refl, ite, ◌∙◌, sym, ap, true, false, ◌&&◌,
  Option, none, some, List, Bytes, Bytes-discrete, bytes_eq, if◌then◌else◌, ltb, ◌==◌, arith,
  Bool-cases, inl, inr,
}
use dist_cache.Base.Assoc.{lookup}
use dist_cache.Base.Int64.{ℤ, pos, ltz, ◌+ℤ◌}
use dist_cache.Cache.Item.{Item}
use dist_cache.Cache.Shard
use dist_cache.Cache.Shard.{Shard}
use dist_cache.Cache.Shard.Evicted.{member, lookup-set}
use dist_cache.Cache.Shard.Reads.{view, reads-view, value_or_empty, is_some}
use dist_cache.Cache.Store.{
  Cache, index, shard_for, put_shard, set_ttl, get, double_loop, next_pow2,
}
use dist_cache.Eviction.Policy.{Policy}

-- The new item of `SetTTL`.
abbrev pub new_item : Bytes → ℤ → ℤ → Item
new_item v t now = record { value = v; expire_at = if ltz (pos 0) t then now +ℤ t else pos 0 }

module _ (hash : Bytes → ℕ) {p : Policy} where
  -- The stored item of a key, and the one that a client can see at a time.
  unfoldable pub stored : Cache p → Bytes → Option Item
  stored c key = lookup key (shard_for hash key c).items

  unfoldable pub seen : ℤ → Cache p → Bytes → Option Item
  seen now c key = view now (shard_for hash key c).items key

  pub stored-put_shard :
      (k j : Bytes) (s : Shard p) (c : Cache p)
      → stored (put_shard hash k s c) j
        ≡ (if index hash j c == index hash k c then lookup j s.items else stored c j)
  unfolding stored put_shard shard_for index
  stored-put_shard k j s c = ground arith

  seen-put_shard :
      (k j : Bytes) (now : ℤ) (s : Shard p) (c : Cache p)
      → seen now (put_shard hash k s c) j
        ≡ (if index hash j c == index hash k c then view now s.items j else seen now c j)
  unfolding seen put_shard shard_for index
  seen-put_shard k j now s c = ground arith

  pub same_index :
      (k j : Bytes) (c : Cache p)
      → index hash j c == index hash k c ≡ true
      → shard_for hash j c ≡ shard_for hash k c
  unfolding shard_for
  same_index k j c h = ap c.shard (ground arith)

  pub other_index : (k j : Bytes) (c : Cache p) → index hash j c == index hash k c ≡ false → k ≢ j
  other_index k j c h e = absurd (ground (arith, ap (λ i. index hash i c) e))

  -- The keys that `SetTTL` evicts.
  unfoldable pub victims : Bytes → Bytes → ℤ → ℤ → Cache p → List Bytes
  victims k v t now c = (Shard.set p k v (new_item v t now).expire_at (shard_for hash k c)).1

  -- After `SetTTL` the key has the new value, and an expiry time if the time to live is positive;
  -- the keys evicted from its shard are gone, and every other key is as it was.
  pub stored-set_ttl :
      (k v : Bytes) (t now : ℤ) (c : Cache p) (j : Bytes)
      → stored (set_ttl hash k v t now c) j
        ≡ ite (Bytes-discrete k j) (some (new_item v t now)) (
            if (index hash j c == index hash k c) && member j (victims k v t now c)
            then none
            else stored c j)
  unfolding set_ttl stored victims
  stored-set_ttl k v t now c j = elim (Bool-cases (index hash j c == index hash k c)) [
    | inl there ↦ ground (
      arith,
      there,
      stored-put_shard k j (Shard.set p k v (new_item v t now).expire_at (shard_for hash k c)).0 c,
      lookup-set k v (new_item v t now).expire_at (shard_for hash k c) j,
      same_index k j c there,
    )
    | inr elsewhere ↦ ground (
      arith,
      elsewhere,
      stored-put_shard k j (Shard.set p k v (new_item v t now).expire_at (shard_for hash k c)).0 c,
      other_index k j c elsewhere,
    )
  ]

  -- `Get` answers from what the client can see of the key, and changes nothing of what can be seen.
  pub get-seen :
      (k : Bytes) (now : ℤ) (c : Cache p) (j : Bytes)
      → ((get hash k now c).1 ≡ value_or_empty (seen now c k))
        × ((get hash k now c).2 ≡ is_some (seen now c k))
        × (seen now (get hash k now c).0 j ≡ seen now c j)
  unfolding get seen
  get-seen k now c j = (
    (reads-view k now (shard_for hash k c) k).0,
    (reads-view k now (shard_for hash k c) k).1,
    kept,
  )
    where
      u : Shard p
      u = (Shard.get p k now (shard_for hash k c)).0

      kept : seen now (put_shard hash k u c) j ≡ seen now c j
      kept = elim (Bool-cases (index hash j c == index hash k c)) [
        | inl there ↦ ground (
          arith,
          there,
          seen-put_shard k j now u c,
          (reads-view k now (shard_for hash k c) j).5,
          same_index k j c there,
        )
        | inr elsewhere ↦ ground (arith, elsewhere, seen-put_shard k j now u c)
      ]

pow-suc : (k : ℕ) → 2 ^ suc k ≡ 2 ^ k * 2
pow-suc k = omega arith

pow-add_zero : (k : ℕ) → 2 ^ (k + 0) ≡ 2 ^ k
pow-add_zero k = ap (λ i. 2 ^ i) (omega arith)

pow-shift : (k fuel : ℕ) → 2 ^ (k + suc fuel) ≡ 2 ^ (suc k + fuel)
pow-shift k fuel = ap (λ i. 2 ^ i) (omega arith)

double_loop-pow2 :
    (fuel n p k : ℕ)
    → p ≡ 2 ^ k
    → p < n * 2
    → n ≤ 2 ^ (k + fuel)
    → (m : ℕ) × (double_loop fuel n p ≡ 2 ^ m) × (n ≤ 2 ^ m) × (2 ^ m < n * 2)
unfolding double_loop
double_loop-pow2 zero n p k e h g = (k, e, omega (arith, pow-add_zero k), omega (arith, e))
double_loop-pow2 (suc fuel) n p k e h g = elim (Bool-cases (ltb p n)) [
  | inl more ↦
      rw (double_loop, more)
        (double_loop-pow2 fuel n (p * 2) (suc k) (ap (λ q. q * 2) e ∙ sym (pow-suc k))
          (ground (arith, more)) (omega (arith, pow-shift k fuel)))
  | inr enough ↦ rw (double_loop, enough) (k, e, ground (arith, enough, e), omega (arith, e))
]

positive : (n : ℕ) → 0 < n → ltb n 1 ≡ false
positive n h = ground (arith, h)

-- For a number of shards from 1 to 2^62, `nextPow2` ends and gives the least power of two that is
-- not below it.
next_pow2-least :
    (n : ℕ) → 0 < n → n ≤ 2 ^ 62 → (m : ℕ) × (next_pow2 n ≡ 2 ^ m) × (n ≤ 2 ^ m) × (2 ^ m < n * 2)
unfolding next_pow2
next_pow2-least n h g =
    rw (next_pow2, positive n h) (double_loop-pow2 63 n 1 0 refl (omega arith) (omega arith))
