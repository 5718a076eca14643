-- ===== src/Locks/Exclusion.antt =====
-- What a lease promises its owner.
use dist_cache.Base.{
  ◌↔◌, ◌≡◌, ◌≢◌, refl, ite, Bool, true, false, ◌||◌, ◌⊎◌, Option, none, some, List, [], ◌∷◌, Bytes,
  Bytes-discrete, bytes_eq, if◌then◌else◌, arith, Bool-cases, Option-cases, inl, inr,
}
use dist_cache.Base.Assoc.{lookup, lookup-insert, lookup-erase}
use dist_cache.Base.Int64.{ℤ, ltz, lez, ◌+ℤ◌}
use dist_cache.Locks
use dist_cache.Locks.{Lease, Manager, held_by_other, Round, is_locked, acquire_blocking}

pub data Call : Type 0 where
  acquire : Bytes → Bytes → ℤ → ℤ → Bytes → Call
  release : Bytes → Bytes → Call
  renew : Bytes → Bytes → ℤ → ℤ → Call

unfoldable pub run : Call → Manager → Manager
run (acquire k o ttl now tok) m = (Locks.acquire k o ttl now tok m).0
run (release k tok) m = (Locks.release k tok m).0
run (renew k tok ttl now) m = (Locks.renew k tok ttl now m).0

unfoldable pub run_all : List Call → Manager → Manager
run_all [] m = m
run_all (c ∷ cs) m = run_all cs (run c m)

-- A call by a client that is not the owner of the lease `l` on `key` and does not know its token,
-- made before the lease ends. Calls on other keys are free.
abbrev pub Foreign : Bytes → Lease → Call → Type 0
Foreign key l (acquire k o ttl now tok) = (k ≢ key) ⊎ ((l.owner ≢ o) × (ltz now l.expire_at ≡ true))
Foreign key l (release k tok) = (k ≢ key) ⊎ (l.token ≢ tok)
Foreign key l (renew k tok ttl now) = (k ≢ key) ⊎ (l.token ≢ tok)

abbrev pub AllForeign : Bytes → Lease → List Call → Type 0
AllForeign key l [] = Unit
AllForeign key l (c ∷ cs) = Foreign key l c × AllForeign key l cs

module _ (key : Bytes) (l : Lease) where
  run-Foreign :
      (c : Call) (m : Manager)
      → Foreign key l c
      → lookup key m ≡ some l
      → lookup key (run c m) ≡ some l
  unfolding run Locks.acquire held_by_other Locks.release Locks.renew
  run-Foreign (acquire k o ttl now tok) m f h =
      ground
        (arith, lookup-insert k key (record { token = tok; owner = o; expire_at = now +ℤ ttl }) m)
  run-Foreign (release k tok) m f h = ground (arith, lookup-erase k key m)
  run-Foreign (renew k tok ttl now) m f h = elim (Option-cases (lookup k m)) [
    | inl e ↦ ground arith
    | inr (l', e) ↦ ground (arith, lookup-insert k key (record l' { expire_at = now +ℤ ttl }) m)
  ]

  run_all-AllForeign :
      (cs : List Call) (m : Manager)
      → AllForeign key l cs
      → lookup key m ≡ some l
      → lookup key (run_all cs m) ≡ some l
  unfolding run_all
  run_all-AllForeign [] m f h = h
  run_all-AllForeign (c ∷ cs) m f h = run_all-AllForeign cs (run c m) f.1 (run-Foreign c m f.0 h)

  -- While a lease runs, whatever the clients that are not its owner and do not know its token do,
  -- the lease stays as it is; an `Acquire` of its key by another owner before its end is refused
  -- and changes nothing.
  pub lease_exclusive :
      (cs : List Call) (m : Manager) (o tok : Bytes) (ttl now : ℤ)
      → AllForeign key l cs
      → lookup key m ≡ some l
      → l.owner ≢ o
      → ltz now l.expire_at ≡ true
      → (lookup key (run_all cs m) ≡ some l)
        × (Locks.acquire key o ttl now tok (run_all cs m) ≡ (run_all cs m, [], false))
  unfolding Locks.acquire held_by_other
  lease_exclusive cs m o tok ttl now f h other live =
      let kept : lookup key (run_all cs m) ≡ some l = run_all-AllForeign cs m f h in
      (kept, ground arith)

-- The lease with a new end.
abbrev pub renewed : ℤ → Option Lease → Option Lease
renewed e none = none
renewed e (some l) = some (record l { expire_at = e })

module _ (key : Bytes) (m : Manager) where
  -- `Release` succeeds exactly with the token of the key's lease, which is then gone; a failed
  -- call and every other key change nothing.
  pub release_outcome :
      (tok j : Bytes)
      → let r = Locks.release key tok m in
        ((r.1 ≡ true) ↔ ((l : Lease) × (lookup key m ≡ some l) × (l.token ≡ tok)))
        × (lookup j r.0
            ≡ (if r.1 then ite (Bytes-discrete key j) none (lookup j m) else lookup j m))
  unfolding Locks.release
  release_outcome tok j = elim (Option-cases (lookup key m)) [
    | inl e ↦ ((λ c. absurd (ground arith), λ (l, h, q). absurd (ground arith)), ground arith)
    | inr (l, e) ↦ (
      (λ c. (l, e, ground arith), λ (l', h, q). ground arith),
      ground (arith, lookup-erase key j m),
    )
  ]

  -- `Renew` succeeds exactly with the token of the key's lease and before the lease's end, which is
  -- then `ttl` after now; a failed call and every other key change nothing.
  pub renew_outcome :
      (tok j : Bytes) (ttl now : ℤ)
      → let r = Locks.renew key tok ttl now m in
        ((r.1 ≡ true) ↔ (
          (l : Lease) × (lookup key m ≡ some l) × (l.token ≡ tok) × (lez l.expire_at now ≡ false)))
        × (lookup j r.0 ≡ (
            if r.1
            then ite (Bytes-discrete key j) (renewed (now +ℤ ttl) (lookup key m)) (lookup j m)
            else lookup j m))
  unfolding Locks.renew
  renew_outcome tok j ttl now = elim (Option-cases (lookup key m)) [
    | inl e ↦ ((λ c. absurd (ground arith), λ (l, h, q, live). absurd (ground arith)), ground arith)
    | inr (l, e) ↦ (
      (λ c. (l, e, ground arith, ground arith), λ (l', h, q, live). ground arith),
      ground (arith, lookup-insert key j (record l { expire_at = now +ℤ ttl }) m),
    )
  ]

unfoldable pub any_late : List Round → Bool
any_late [] = false
any_late (r ∷ rs) = r.late || any_late rs

module _ (key owner : Bytes) (ttl : ℤ) where
  -- When a round of `AcquireBlocking` is past its deadline, whatever the other clients do, the call
  -- returns, and it reports a failure or the key has a lease of this owner with the returned token.
  pub acquire_blocking_returns :
      (rs : List Round) (m : Manager)
      → any_late rs ≡ true
      → (r : Bytes × Bool) × ((acquire_blocking key owner ttl rs m).1 ≡ some r)
        × ((r.1 ≡ false)
            ⊎ ((l : Lease) × (lookup key (acquire_blocking key owner ttl rs m).0 ≡ some l)
                × (l.token ≡ r.0)
                × (l.owner ≡ owner)))
  unfolding acquire_blocking any_late
  acquire_blocking_returns [] m h = absurd (ground arith)
  acquire_blocking_returns (r ∷ rs) m h = elim (Bool-cases (held_by_other key owner r.now m)) [
    | inr free ↦
        let l : Lease = record { token = r.tok; owner = owner; expire_at = r.now +ℤ ttl } in
        (
          (r.tok, true),
          rw (free, acquire_blocking, Locks.acquire),
          inr (
            l,
            rw (free, acquire_blocking, Locks.acquire) (ground (arith, lookup-insert key key l m)),
            refl,
            refl,
          ),
        )
    | inl held ↦ elim (Bool-cases r.late) [
      | inl late ↦ (([], false), ground arith, inl refl)
      | inr more ↦
          rw (held, more, acquire_blocking, Locks.acquire)
            (acquire_blocking_returns rs (r.meanwhile m) (ground arith))
    ]
  ]
