-- ===== src/Eviction/Random.antt =====
-- random.go: a victim drawn from a slice of the keys, with an index into it. `math/rand` is a
-- parameter: a generator of some type, and `Intn`, which moves it on and draws a number.
pub mod Index
pub mod Laws
use dist_cache.Base.{
  ℕ, ◌-◌, ◌==◌, ite, Bool, true, false, Option, none, some, List, [], ◌∷◌, ◌++◌, length, take,
  Bytes, bytes_eq, if◌then◌else◌,
}
use dist_cache.Base.Assoc.{Assoc, lookup, insert, erase}
use dist_cache.Base.Positions.{get_elem?, set}

-- `random`
pub record Random (Rng : Type 0) : Type 0 where
  pub keys : List Bytes
  pub idx : Assoc Bytes ℕ
  pub rng : Rng

module _ {Rng : Type 0} where
  -- `NewRandom`, with the generator that it makes
  abbrev pub new_random : Rng → Random Rng
  new_random rng = record { keys = []; idx = []; rng = rng }

  unfoldable pub add : Random Rng → Bytes → Random Rng
  add p k = elim (lookup k p.idx) [
    | some _ ↦ p
    | none ↦ record p { keys = p.keys ++ k ∷ []; idx = insert k (length p.keys) p.idx }
  ]

  -- `moved := p.keys[last]; p.keys[i] = moved; p.idx[moved] = i`; without a last key Go panics
  unfoldable pub move : Random Rng → ℕ → ℕ → Random Rng
  move p last i = elim (get_elem? p.keys last) [
    | none ↦ p
    | some moved ↦ record p { keys = set p.keys i moved; idx = insert moved i p.idx }
  ]

  -- `p.keys = p.keys[:last]; delete(p.idx, key)`
  unfoldable pub cut : Random Rng → Bytes → ℕ → Random Rng
  cut p k last = record p { keys = take last p.keys; idx = erase k p.idx }

  unfoldable pub remove_at : Random Rng → Bytes → ℕ → Random Rng
  remove_at p k i =
      let last = length p.keys - 1 in cut (if i == last then p else move p last i) k last

  unfoldable pub remove : Random Rng → Bytes → Random Rng
  remove p k = elim (lookup k p.idx) [ none ↦ p | some i ↦ remove_at p k i ]

  -- The key at the drawn place goes; at a place out of range Go panics.
  unfoldable pub evict_at : Random Rng → Option Bytes → Random Rng × Option Bytes
  evict_at p none = (p, none)
  evict_at p (some k) = (remove p k, some k)

  unfoldable pub evict : (Rng → ℕ → Rng × ℕ) → Random Rng → Random Rng × Option Bytes
  evict intn p =
      let (rng', i) = intn p.rng (length p.keys) in
      if length p.keys == 0
      then (p, none)
      else evict_at (record p { rng = rng' }) (get_elem? p.keys i)
