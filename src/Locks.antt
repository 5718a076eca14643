-- ===== src/Locks.antt =====
-- internal/locks/locks.go: leases on keys. The clock's readings and the random token of each call
-- are arguments; the mutex makes each method one step.
pub mod Exclusion
use dist_cache.Base.{
  ite, Bool, true, false, ◌&&◌, ◌||◌, not, Option, none, some, List, [], ◌∷◌, Bytes, bytes_eq, same,
  if◌then◌else◌,
}
use dist_cache.Base.Assoc.{Assoc, lookup, insert, erase}
use dist_cache.Base.Int64.{ℤ, ltz, lez, ◌+ℤ◌}

pub record Lease : Type 0 where
  pub token : Bytes
  pub owner : Bytes
  pub expire_at : ℤ

-- The map `locks` of a `Manager`.
abbrev pub Manager : Type 0
Manager = Assoc Bytes Lease

abbrev pub empty : Manager
empty = []

-- A lease that another owner holds at this time stands in the way.
unfoldable pub held_by_other : Bytes → Bytes → ℤ → Manager → Bool
held_by_other key owner now m = elim (lookup key m) [
  | none ↦ false
  | some l ↦ if ltz now l.expire_at then not (same l.owner owner) else false
]

-- The token, or "", and whether the lock was granted.
unfoldable pub acquire : Bytes → Bytes → ℤ → ℤ → Bytes → Manager → Manager × Bytes × Bool
unfolding held_by_other
acquire key owner ttl now tok m =
    if held_by_other key owner now m
    then (m, [], false)
    else (insert key (record { token = tok; owner = owner; expire_at = now +ℤ ttl }) m, tok, true)

unfoldable pub release : Bytes → Bytes → Manager → Manager × Bool
release key token m = elim (lookup key m) [
  | none ↦ (m, false)
  | some l ↦ if not (same l.token token) then (m, false) else (erase key m, true)
]

unfoldable pub renew : Bytes → Bytes → ℤ → ℤ → Manager → Manager × Bool
renew key token ttl now m = elim (lookup key m) [
  | none ↦ (m, false)
  | some l ↦
      if not (same l.token token) || lez l.expire_at now
      then (m, false)
      else (insert key (record l { expire_at = now +ℤ ttl }) m, true)
]

unfoldable pub is_locked : Bytes → ℤ → Manager → Bool
is_locked key now m = elim (lookup key m) [ none ↦ false | some l ↦ ltz now l.expire_at ]

-- One round of `AcquireBlocking`: the clock and the token of its `Acquire`, whether the deadline
-- has passed after it, and what the other clients do during the sleep.
pub record Round : Type 0 where
  pub now : ℤ
  pub tok : Bytes
  pub late : Bool
  pub meanwhile : Manager → Manager

-- The loop of `AcquireBlocking`, over the rounds that the clock allows; with no round left it has
-- not returned, which is `none`.
unfoldable pub acquire_blocking :
    Bytes → Bytes → ℤ → List Round → Manager → Manager × Option (Bytes × Bool)
unfolding acquire
acquire_blocking key owner ttl [] m = (m, none)
acquire_blocking key owner ttl (r ∷ rs) m =
    let (m', tok, ok) = acquire key owner ttl r.now r.tok m in
    let again = acquire_blocking key owner ttl rs (r.meanwhile m') in
    if ok then (m', some (tok, true)) else if r.late then (m', some ([], false)) else again
