-- ===== src/Tests/Evictions.antt =====
-- The random policy of internal/eviction, at concrete inputs.
use Prim.Native.Nat.{ℕ, ◌+◌, ◌%◌, ◌<◌}
use mathlib.Core.Path.{◌≡◌, refl}
use mathlib.Core.List.{[], ◌∷◌}
use native.Mathlib.Omega.{arith}
use dist_cache.Base.{length, bytes_eq, Bytes-discrete, ℕ_discrete}
use dist_cache.Eviction.Drain.{victims, is_among}
use dist_cache.Eviction.Policy.{Policy}
use dist_cache.Base.Assoc.{lookup, insert, erase}
use dist_cache.Base.Positions.{get_elem?, set}
use dist_cache.Eviction.Random.{add, remove, remove_at, move, cut, evict, evict_at}
use dist_cache.Eviction.Random.Index.{holds}
use dist_cache.Eviction.Random.Laws.{random, is_among-victims-random}

-- A generator that counts.
abbrev counting : ℕ → ℕ → ℕ × ℕ
counting rng n = (rng + 1, rng % n)

counting_below : (rng n : ℕ) → 0 < n → (counting rng n).1 < n
counting_below rng n h = omega (arith, h)

abbrev pool : Policy
pool = random counting counting_below 7

abbrev three : pool.State
three = pool.add (pool.add (pool.add pool.init (1 ∷ [])) (2 ∷ [])) (3 ∷ [])

two_left : length (pool.remove three (1 ∷ [])).0.keys ≡ 2
unfolding add remove remove_at move cut get_elem? set lookup insert erase Bytes-discrete ℕ_discrete
two_left = refl

in_this_order : victims pool 3 three ≡ (2 ∷ []) ∷ (1 ∷ []) ∷ (3 ∷ []) ∷ []
unfolding add victims evict evict_at remove remove_at move cut get_elem? set lookup insert erase
    Bytes-discrete ℕ_discrete
in_this_order = refl

is_among-victims-random_example :
    is_among (2 ∷ []) (victims (random counting counting_below 7) (length three.0.keys) three)
    ≡ holds three.0 (2 ∷ [])
is_among-victims-random_example = is_among-victims-random counting counting_below 7 three (2 ∷ [])
