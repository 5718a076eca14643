-- ===== src/Txn.antt =====
-- internal/txn/txn.go: optimistic transactions, which watch keys. `C` is the cache, which the
-- queued commands change, and `R` their results. The mutexes make each method one step; `Watch`
-- stands behind the delivery of all earlier events, which `Sync` waits for.
pub mod Watching
use dist_cache.Base.{
  ℕ, zero, suc, ◌+◌, ◌-◌, ◌%◌, ◌^◌, Bool, true, false, not, ◌&&◌, ◌||◌, Option, none, some, List,
  [], ◌∷◌, ◌++◌, Bytes, same, bytes_eq, if◌then◌else◌, ltb, ◌==◌,
}
use dist_cache.Base.Assoc.{Assoc, lookup, insert, erase}
use dist_cache.Cache.Item.{Event, op_flush}

-- A number of a map, 0 where the key is missing.
abbrev pub at : Bytes → Assoc Bytes ℕ → ℕ
at k m = elim (lookup k m) [ none ↦ 0 | some n ↦ n ]

pub record Coordinator : Type 0 where
  pub versions : Assoc Bytes ℕ
  pub watchers : Assoc Bytes ℕ

abbrev pub new_coordinator : Coordinator
new_coordinator = record { versions = []; watchers = [] }

-- `co.versions[k]++` on a uint64.
unfoldable pub bump : Bytes → Assoc Bytes ℕ → Assoc Bytes ℕ
bump k m = insert k ((at k m + 1) % 2 ^ 64) m

-- `for k := range co.watchers { co.versions[k]++ }`
unfoldable pub bump_all : Assoc Bytes ℕ → Assoc Bytes ℕ → Assoc Bytes ℕ
unfolding bump
bump_all [] versions = versions
bump_all ((k, n) ∷ ws) versions = bump_all ws (bump k versions)

unfoldable pub on_event : Event → Coordinator → Coordinator
unfolding bump bump_all
on_event ev co =
    if ev.op == op_flush
    then record co { versions = bump_all co.watchers co.versions }
    else if not (same ev.key []) && ltb 0 (at ev.key co.watchers)
    then record co { versions = bump ev.key co.versions }
    else co

module _ (C R : Type 0) where
  pub record Tx : Type 0 where
    pub watched : Assoc Bytes ℕ
    pub queued : List (C → C × R)
    pub in_multi : Bool

  unfoldable pub begin : Tx
  begin = record { watched = []; queued = []; in_multi = false }

  -- The loop of `Watch`.
  unfoldable pub watch_keys : List Bytes → Tx → Coordinator → Tx × Coordinator
  watch_keys [] tx co = (tx, co)
  watch_keys (k ∷ ks) tx co = elim (lookup k tx.watched) [
    | some _ ↦ watch_keys ks tx co
    | none ↦
        watch_keys ks (record tx { watched = insert k (at k co.versions) tx.watched })
          (record co { watchers = insert k (at k co.watchers + 1) co.watchers })
  ]

  -- `none` is an error, on which nothing has changed.
  unfoldable pub watch : List Bytes → Tx → Coordinator → Option (Tx × Coordinator)
  unfolding watch_keys
  watch ks tx co = if tx.in_multi then none else some (watch_keys ks tx co)

  unfoldable pub multi : Tx → Option Tx
  multi tx = if tx.in_multi then none else some (record tx { in_multi = true })

  unfoldable pub queue : (C → C × R) → Tx → Option Tx
  queue cmd tx =
      if not tx.in_multi then none else some (record tx { queued = tx.queued ++ cmd ∷ [] })

  -- The loop of `release`, over the watched keys.
  unfoldable pub unwatch : Assoc Bytes ℕ → Coordinator → Coordinator
  unwatch [] co = co
  unwatch ((k, snap) ∷ ks) co =
      if ltb 0 (at k co.watchers)
      then unwatch ks (
          if at k co.watchers == 1
          then record { versions = erase k co.versions; watchers = erase k co.watchers }
          else record co { watchers = insert k (at k co.watchers - 1) co.watchers })
      else unwatch ks co

  unfoldable pub release : Tx → Coordinator → Tx × Coordinator
  unfolding unwatch
  release tx co = (record tx { watched = [] }, unwatch tx.watched co)

  unfoldable pub changed : Assoc Bytes ℕ → Coordinator → Bool
  changed [] co = false
  changed ((k, snap) ∷ ks) co = not (at k co.versions == snap) || changed ks co

  unfoldable pub run_queued : List (C → C × R) → C → C × List R
  run_queued [] c = (c, [])
  run_queued (cmd ∷ cmds) c =
      let r = cmd c in let rest = run_queued cmds r.0 in (rest.0, r.1 ∷ rest.1)

  -- The results, `ErrNoMulti` or `ErrAborted`.
  pub data Executed : Type 0 where
    results : List R → Executed
    no_multi : Executed
    aborted : Executed

  unfoldable pub exec : Tx → Coordinator → C → Tx × Coordinator × C × Executed
  unfolding release changed run_queued
  exec tx co c =
      let released = release tx co in
      let run = run_queued tx.queued c in
      if not tx.in_multi
      then (tx, co, c, no_multi)
      else if changed tx.watched co
      then (released.0, released.1, c, aborted)
      else (record released.0 { in_multi = false; queued = [] }, released.1, run.0, results run.1)

  unfoldable pub discard : Tx → Coordinator → Tx × Coordinator
  unfolding release
  discard tx co =
      let released = release tx co in
      (record released.0 { in_multi = false; queued = [] }, released.1)
