-- ===== src/Tests/Leases.antt =====
-- internal/locks, at concrete inputs.
use dist_cache.Base.{
  ◌≡◌, ◌↔◌, ◌⊎◌, refl, inr, ite, if◌then◌else◌, [], ◌∷◌, some, none, Bytes, Bytes-discrete,
  bytes_eq, List, arith, true, false, Bool,
}
use dist_cache.Base.Assoc.{lookup}
use dist_cache.Base.Int64.{pos, lez, ◌+ℤ◌}
use dist_cache.Locks
use dist_cache.Locks.{Lease, Manager, Round, acquire_blocking}
use dist_cache.Locks.Exclusion.{
  Call, run_all, lease_exclusive, release_outcome, renew_outcome, renewed, acquire_blocking_returns,
  any_late,
}

abbrev key : Bytes
key = 107 ∷ []

abbrev lease : Lease
lease = record { token = 1 ∷ []; owner = 65 ∷ []; expire_at = pos 100 }

abbrev held : Manager
held = (key, lease) ∷ []

-- Another client tries to take, to release and to renew the lease.
abbrev tries : List Call
tries =
    Call.acquire key (66 ∷ []) (pos 50) (pos 9) (2 ∷ [])
    ∷ Call.release key (2 ∷ [])
    ∷ Call.renew key (3 ∷ []) (pos 10) (pos 20)
    ∷ []

lease_exclusive_example :
    (lookup key (run_all tries held) ≡ some lease)
    × (Locks.acquire key (66 ∷ []) (pos 10) (pos 99) (2 ∷ []) (run_all tries held)
        ≡ (run_all tries held, [], false))
lease_exclusive_example =
    lease_exclusive key lease tries held (66 ∷ []) (2 ∷ []) (pos 10) (pos 99)
      (inr (ground arith, refl), (inr (ground arith), (inr (ground arith), tt)))
      (unfold lookup Bytes-discrete in refl) (ground arith) refl

release_outcome_example :
    (((Locks.release key (1 ∷ []) held).1 ≡ true)
      ↔ ((l : Lease) × (lookup key held ≡ some l) × (l.token ≡ 1 ∷ [])))
    × (lookup key (Locks.release key (1 ∷ []) held).0 ≡ (
        if (Locks.release key (1 ∷ []) held).1
        then ite (Bytes-discrete key key) none (lookup key held)
        else lookup key held))
release_outcome_example = release_outcome key held (1 ∷ []) key

renew_outcome_example :
    (((Locks.renew key (1 ∷ []) (pos 30) (pos 90) held).1 ≡ true) ↔ (
      (l : Lease) × (lookup key held ≡ some l)
      × (l.token ≡ 1 ∷ [])
      × (lez l.expire_at (pos 90) ≡ false)))
    × (lookup key (Locks.renew key (1 ∷ []) (pos 30) (pos 90) held).0 ≡ (
        if (Locks.renew key (1 ∷ []) (pos 30) (pos 90) held).1
        then ite
            (Bytes-discrete key key)
            (renewed (pos 90 +ℤ pos 30) (lookup key held))
            (lookup key held)
        else lookup key held))
renew_outcome_example = renew_outcome key held (1 ∷ []) key (pos 30) (pos 90)

-- The lease ends between the two rounds.
abbrev rounds : List Round
rounds =
    record { now = pos 50; tok = 2 ∷ []; late = false; meanwhile = λ m. m }
    ∷ record { now = pos 120; tok = 3 ∷ []; late = true; meanwhile = λ m. m }
    ∷ []

acquire_blocking_returns_example :
    (r : Bytes × Bool) × ((acquire_blocking key (66 ∷ []) (pos 10) rounds held).1 ≡ some r)
    × ((r.1 ≡ false)
        ⊎ ((l : Lease) × (lookup key (acquire_blocking key (66 ∷ []) (pos 10) rounds held).0
              ≡ some l)
            × (l.token ≡ r.0)
            × (l.owner ≡ 66 ∷ [])))
acquire_blocking_returns_example =
    acquire_blocking_returns key (66 ∷ []) (pos 10) rounds held (unfold any_late in refl)
