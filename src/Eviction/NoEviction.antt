-- ===== src/Eviction/NoEviction.antt =====
-- policy.go: the policy that names no victim, and counts its keys.
use dist_cache.Base.{ℕ, ◌+◌, ◌-◌, none, Bytes, arith, ltb, if◌then◌else◌}
use dist_cache.Eviction.Policy.{Policy, Bounded}

-- `if p.n > 0 { p.n-- }`
unfoldable pub remove : ℕ → Bytes → ℕ
remove n k = if ltb 0 n then n - 1 else n

abbrev pub no_eviction : Policy
no_eviction = record {
  State = ℕ;
  init = 0;
  add = λ n k. n + 1;
  access = λ n k. n;
  remove = remove;
  evict = λ n. (n, none);
  len = λ n. n;
  weight = λ n. n;
  note = none;
}

pub no_eviction_bounded : Bounded no_eviction
no_eviction_bounded = record { evict_weight = λ n k h. absurd (ground (arith, h)) }
