-- ===== src/Txn/Watching.antt =====
-- What a transaction that watches keys finds out at its end.
use dist_cache.Base.{
  ℕ, ◌+◌, ◌%◌, ◌^◌, ◌<◌, ◌≤◌, ◌≡◌, refl, ◌∙◌, ap, Bool, true, false, not, ◌&&◌, ◌||◌, none, List,
  [], ◌∷◌, Bytes, Bytes-discrete, same, bytes_eq, if◌then◌else◌, ltb, ◌==◌, arith, length, All,
  Bool-cases, inl, inr,
}
use dist_cache.Base.Assoc.{Assoc, lookup, Distinct, lookup-insert}
use dist_cache.Cache.Item.{Event, op_flush}
use dist_cache.Txn.{
  at, Coordinator, bump, bump_all, on_event, Tx, changed, run_queued, Executed, exec,
}

-- An event touches a key: a flush touches all, another event its own key.
unfoldable pub touches : Bytes → Event → Bool
touches k ev = (ev.op == op_flush) || same ev.key k

unfoldable pub touches_in : Bytes → List Event → ℕ
touches_in k [] = 0
touches_in k (ev ∷ evs) = (if touches k ev then 1 else 0) + touches_in k evs

-- The events that the coordinator counts for a key: those that touch it, but of "" only flushes.
unfoldable counts : Bytes → Event → Bool
counts k ev = (ev.op == op_flush) || (same ev.key k && not (same k []))

unfoldable counts_in : Bytes → List Event → ℕ
counts_in k [] = 0
counts_in k (ev ∷ evs) = (if counts k ev then 1 else 0) + counts_in k evs

unfoldable pub any_touched : Assoc Bytes ℕ → List Event → Bool
any_touched [] evs = false
any_touched ((k, snap) ∷ ks) evs = ltb 0 (touches_in k evs) || any_touched ks evs

unfoldable pub on_events : List Event → Coordinator → Coordinator
on_events [] co = co
on_events (ev ∷ evs) co = on_events evs (on_event ev co)

counts_in-le : (k : Bytes) (evs : List Event) → counts_in k evs ≤ length evs
unfolding counts_in
counts_in-le k [] = omega arith
counts_in-le k (ev ∷ evs) = ground (arith, counts_in-le k evs)

at-bump :
    (k j : Bytes) (m : Assoc Bytes ℕ)
    → at j (bump k m) ≡ (if same k j then (at k m + 1) % 2 ^ 64 else at j m)
unfolding bump
at-bump k j m = ground (arith, lookup-insert k j ((at k m + 1) % 2 ^ 64) m)

same_key : (a b : Bytes) → same a b ≡ true → a ≡ b
same_key a b h = ground arith

at-bump_none :
    (j : Bytes) (ws vs : Assoc Bytes ℕ) → lookup j ws ≡ none → at j (bump_all ws vs) ≡ at j vs
unfolding bump_all lookup
at-bump_none j [] vs h = refl
at-bump_none j ((k, n) ∷ ws) vs h =
    at-bump_none j ws (bump k vs) (ground (arith, h)) ∙ ground (arith, h, at-bump k j vs)

at-bump_all :
    (j : Bytes) (ws vs : Assoc Bytes ℕ)
    → Distinct ws
    → 0 < at j ws
    → at j (bump_all ws vs) ≡ (at j vs + 1) % 2 ^ 64
unfolding bump_all lookup
at-bump_all j [] vs d h = absurd (omega (arith, h))
at-bump_all j ((k, n) ∷ ws) vs d h = elim (Bool-cases (same k j)) [
  | inl e ↦
      at-bump_none j ws (bump k vs) (ground (arith, d.0, e)) ∙ ground (arith, e, at-bump k j vs)
  | inr e ↦
      at-bump_all j ws (bump k vs) d.1 (ground (arith, h, e))
      ∙ ap (λ v. (v + 1) % 2 ^ 64) (ground (arith, e, at-bump k j vs))
]

watchers-on_event : (ev : Event) (co : Coordinator) → (on_event ev co).watchers ≡ co.watchers
unfolding on_event
watchers-on_event ev co = ground arith

at-on_event :
    (k : Bytes) (ev : Event) (co : Coordinator)
    → Distinct co.watchers
    → 0 < at k co.watchers
    → at k (on_event ev co).versions
      ≡ (if counts k ev then (at k co.versions + 1) % 2 ^ 64 else at k co.versions)
unfolding on_event counts
at-on_event k ev co d h = elim (Bool-cases (ev.op == op_flush)) [
  | inl f ↦ rw (on_event, f) (ground (arith, f, at-bump_all k co.watchers co.versions d h))
  | inr f ↦ elim (Bool-cases (same ev.key k)) [
    | inl e ↦ elim (Bool-cases (same k [])) [
      | inl g ↦ rw (on_event, f, same_key ev.key k e, g) (ground arith)
      | inr g ↦
          rw (on_event, f, same_key ev.key k e, g) (ground (arith, h, at-bump k k co.versions))
    ]
    | inr e ↦
        rw (on_event, f, e)
          (elim (Bool-cases (not (same ev.key []) && ltb 0 (at ev.key co.watchers))) [
            | inl g ↦ rw g (ground (arith, e, at-bump ev.key k co.versions))
            | inr g ↦ rw g refl
          ])
  ]
]

at-on_events :
    (k : Bytes) (evs : List Event) (co : Coordinator)
    → Distinct co.watchers
    → 0 < at k co.watchers
    → at k co.versions < 2 ^ 64
    → at k (on_events evs co).versions ≡ (at k co.versions + counts_in k evs) % 2 ^ 64
unfolding on_events counts_in
at-on_events k [] co d h b = omega (arith, b)
at-on_events k (ev ∷ evs) co d h b =
    at-on_events k evs (on_event ev co) (rw (watchers-on_event ev co) d)
      (rw (watchers-on_event ev co) h) (ground (arith, b, at-on_event k ev co d h))
    ∙ ground (arith, at-on_event k ev co d h, b)

-- The coordinator knows of a watched key, whose version is the watched one.
pub record IsWatched (co : Coordinator) (e : Bytes × ℕ) : Type 0 where
  pub counted : 0 < at e.0 co.watchers
  pub current : at e.0 co.versions ≡ e.1
  pub small : e.1 < 2 ^ 64

counts_in-touches_in :
    (k : Bytes) (evs : List Event) → same k [] ≡ false → counts_in k evs ≡ touches_in k evs
unfolding counts_in touches_in counts touches
counts_in-touches_in k [] h = refl
counts_in-touches_in k (ev ∷ evs) h = ground (arith, h, counts_in-touches_in k evs h)

-- No event is a flush.
unfoldable pub no_flush : List Event → Bool
no_flush [] = true
no_flush (ev ∷ evs) = not (ev.op == op_flush) && no_flush evs

counts_in_unnamed :
    (k : Bytes) (evs : List Event) → same k [] ≡ true → no_flush evs ≡ true → counts_in k evs ≡ 0
unfolding counts_in counts no_flush
counts_in_unnamed k [] e h = refl
counts_in_unnamed k (ev ∷ evs) e h = ground (arith, h, e, counts_in_unnamed k evs e)

abbrev pub IsNamed : Bytes × ℕ → Type 0
IsNamed e = same e.0 [] ≡ false

module _ (C R : Type 0) where
  -- The version of a watched key after the events, against the watched one.
  version_changed :
      (k : Bytes) (snap : ℕ) (evs : List Event) (co : Coordinator)
      → Distinct co.watchers
      → length evs < 2 ^ 64
      → IsWatched co (k, snap)
      → not (at k (on_events evs co).versions == snap) ≡ ltb 0 (counts_in k evs)
  version_changed k snap evs co d b w = ground (
    arith,
    w.current,
    w.small,
    counts_in-le k evs,
    b,
    at-on_events k evs co d w.counted (omega (arith, w.current, w.small)),
  )

  changed-on_events :
      (watched : Assoc Bytes ℕ) (evs : List Event) (co : Coordinator)
      → Distinct co.watchers
      → length evs < 2 ^ 64
      → All (IsWatched co) watched
      → All IsNamed watched
      → changed C R watched (on_events evs co) ≡ any_touched watched evs
  unfolding changed any_touched
  changed-on_events [] evs co d b w n = refl
  changed-on_events ((k, snap) ∷ ks) evs co d b (w, ws) (n, ns) = ground (
    arith,
    changed-on_events ks evs co d b ws ns,
    version_changed k snap evs co d b w,
    counts_in-touches_in k evs n,
  )

  -- A transaction after `Multi`, whose watched keys are not "" and are known to the coordinator at
  -- their current versions, and then fewer than 2^64 events: `Exec` is aborted exactly when one of
  -- the events is of a watched key or a flush while a key is watched, and then the cache is as it
  -- was; otherwise the queued commands run in order and give their results.
  pub exec_outcome :
      (tx : Tx C R) (evs : List Event) (co : Coordinator) (c : C)
      → tx.in_multi ≡ true
      → Distinct co.watchers
      → length evs < 2 ^ 64
      → All (IsWatched co) tx.watched
      → All IsNamed tx.watched
      → let r = exec C R tx (on_events evs co) c in
        (r.3 ≡ (
          if any_touched tx.watched evs
          then Executed.aborted
          else Executed.results (run_queued C R tx.queued c).1))
        × (r.2 ≡ (if any_touched tx.watched evs then c else (run_queued C R tx.queued c).0))
  unfolding exec
  exec_outcome tx evs co c m d b w n =
      ground (arith, m, changed-on_events tx.watched evs co d b w n)

  -- A transaction after `Multi` that watches the key "" alone, known to the coordinator at its
  -- current version, and then fewer than 2^64 events of which none is a flush: `Exec` is not
  -- aborted, however many of the events are of the key "": the queued commands run and give their
  -- results.
  pub exec_misses_empty :
      (tx : Tx C R) (snap : ℕ) (evs : List Event) (co : Coordinator) (c : C)
      → tx.in_multi ≡ true
      → tx.watched ≡ ([], snap) ∷ []
      → Distinct co.watchers
      → length evs < 2 ^ 64
      → IsWatched co ([], snap)
      → no_flush evs ≡ true
      → let r = exec C R tx (on_events evs co) c in
        (r.3 ≡ Executed.results (run_queued C R tx.queued c).1)
        × (r.2 ≡ (run_queued C R tx.queued c).0)
  unfolding exec changed
  exec_misses_empty tx snap evs co c m e d b w f =
      let same_version : changed C R tx.watched (on_events evs co) ≡ false = rw e (
        ground (
          arith,
          version_changed [] snap evs co d b w,
          counts_in_unnamed [] evs (unfold Bytes-discrete in refl) f,
        )) in
      ground (arith, m, same_version)
