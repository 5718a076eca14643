-- ===== src/Cache/Store/Totals.antt =====
-- What `Stats` says of the shards.
use dist_cache.Base.{
  ℕ, zero, suc, ◌+◌, ◌^◌, ◌<◌, ◌≡◌, refl, ap, ◌∙◌, [], ◌∷◌, ◌++◌, Bytes, length, length-append,
  bytes_eq, arith,
}
use dist_cache.Base.Assoc.{Assoc, total}
use dist_cache.Base.Int64.{pos, ◌+ℤ◌, +ℤ-pos}
use dist_cache.Cache.Item.{Item}
use dist_cache.Cache.Shard.{len, mem_bytes}
use dist_cache.Cache.Shard.Accounting.{size_of, IsAccounted}
use dist_cache.Cache.Store.{Cache, len_below, mem_below, stats}
use dist_cache.Cache.Store.Reached.{Reached, Reached-AllAccounted}
use dist_cache.Eviction.Policy.{Policy}

total-append : (m n : Assoc Bytes Item) → total size_of (m ++ n) ≡ total size_of m + total size_of n
unfolding total
total-append [] n = omega arith
total-append ((k, it) ∷ m) n = omega (arith, total-append m n)

module _ {p : Policy} where
  -- The items of the first `n` shards, one list behind the other.
  unfoldable pub items_below : ℕ → Cache p → Assoc Bytes Item
  items_below zero c = []
  items_below (suc n) c = items_below n c ++ (c.shard n).items

  len_below-length : (n : ℕ) (c : Cache p) → len_below n c ≡ length (items_below n c)
  unfolding len_below items_below len
  len_below-length zero c = refl
  len_below-length (suc n) c =
      omega (arith, len_below-length n c, length-append (items_below n c) (c.shard n).items)

  mem_below-total :
      (n : ℕ) (c : Cache p)
      → ((i : ℕ) → IsAccounted (c.shard i))
      → total size_of (items_below n c) < 2 ^ 63
      → mem_below n c ≡ pos (total size_of (items_below n c))
  unfolding mem_below items_below mem_bytes total
  mem_below-total zero c a h = refl
  mem_below-total (suc n) c a h =
      let both = total-append (items_below n c) (c.shard n).items in
      ap (λ m. m +ℤ (c.shard n).mem) (mem_below-total n c a (omega (arith, h, both)))
      ∙ ap (λ m. pos (total size_of (items_below n c)) +ℤ m) (a n).account
      ∙ +ℤ-pos (total size_of (items_below n c)) (total size_of (c.shard n).items)
          (omega (arith, h, both))
      ∙ ap pos (omega (arith, both))

  -- A cache that any methods, in any order and under any policy and limits, have made of a new one,
  -- while no shard's items could come to take 2^63 bytes; and the items of all shards take less
  -- than that. `Stats` gives the number of all items that its shards store, and the exact sum of
  -- their sizes, which the memory counters have kept through all the calls.
  pub stats-items_below :
      (hash : Bytes → ℕ) (c : Cache p)
      → Reached hash c
      → total size_of (items_below c.count c) < 2 ^ 63
      → ((stats c).1 ≡ pos (length (items_below c.count c)))
        × ((stats c).2 ≡ pos (total size_of (items_below c.count c)))
  unfolding stats
  stats-items_below hash c r h = (
    ap pos (len_below-length c.count c),
    mem_below-total c.count c (Reached-AllAccounted hash r) h,
  )
