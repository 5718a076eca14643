-- ===== src/Tests/Transactions.antt =====
-- internal/txn, at concrete inputs. The cache is a number.
use dist_cache.Base.{
  ℕ, ◌≡◌, ◌+◌, refl, if◌then◌else◌, [], ◌∷◌, Bytes, Bytes-discrete, bytes_eq, List, true, arith,
}
use dist_cache.Base.Assoc.{lookup}
use dist_cache.Base.Int64.{pos}
use dist_cache.Cache.Item.{Event, set_event}
use dist_cache.Txn.{Coordinator, Tx, Executed, exec, run_queued}
use dist_cache.Txn.Watching.{
  any_touched, touches, touches_in, on_events, no_flush, exec_outcome, exec_misses_empty,
}

abbrev key : Bytes
key = 107 ∷ []

-- One transaction watches the key, at its version 4.
abbrev watching : Coordinator
watching = record { versions = (key, 4) ∷ []; watchers = (key, 1) ∷ [] }

abbrev tx : Tx ℕ ℕ
tx = record { watched = (key, 4) ∷ []; queued = (λ c. (c + 1, c)) ∷ []; in_multi = true }

abbrev writes : List Event
writes = set_event key [] (pos 0) ∷ set_event (108 ∷ []) [] (pos 0) ∷ []

writes_touch : any_touched tx.watched writes ≡ true
unfolding any_touched touches_in touches Bytes-discrete
writes_touch = refl

exec_outcome_example :
    ((exec ℕ ℕ tx (on_events writes watching) 10).3 ≡ (
      if any_touched tx.watched writes
      then Executed.aborted
      else Executed.results (run_queued ℕ ℕ tx.queued 10).1))
    × ((exec ℕ ℕ tx (on_events writes watching) 10).2
        ≡ (if any_touched tx.watched writes then 10 else (run_queued ℕ ℕ tx.queued 10).0))
exec_outcome_example =
    exec_outcome ℕ ℕ tx writes watching 10 refl (unfold lookup in refl, tt) (omega arith)
      (
        record {
          counted = unfold lookup Bytes-discrete in omega arith;
          current = unfold lookup Bytes-discrete in refl;
          small = omega arith;
        },
        tt,
      )
      (unfold Bytes-discrete in refl, tt)

-- Another watches the key "", at its version 4.
abbrev unnamed : Coordinator
unnamed = record { versions = ([], 4) ∷ []; watchers = ([], 1) ∷ [] }

abbrev tx_unnamed : Tx ℕ ℕ
tx_unnamed = record tx { watched = ([], 4) ∷ [] }

abbrev writes_unnamed : List Event
writes_unnamed = set_event [] [] (pos 0) ∷ []

touched_anyway : any_touched tx_unnamed.watched writes_unnamed ≡ true
unfolding any_touched touches_in touches Bytes-discrete
touched_anyway = refl

write_missed :
    ((exec ℕ ℕ tx_unnamed (on_events writes_unnamed unnamed) 10).3
      ≡ Executed.results (run_queued ℕ ℕ tx_unnamed.queued 10).1)
    × ((exec ℕ ℕ tx_unnamed (on_events writes_unnamed unnamed) 10).2
        ≡ (run_queued ℕ ℕ tx_unnamed.queued 10).0)
write_missed =
    exec_misses_empty ℕ ℕ tx_unnamed 4 writes_unnamed unnamed 10 refl refl
      (unfold lookup in refl, tt) (omega arith)
      (record {
        counted = unfold lookup Bytes-discrete in omega arith;
        current = unfold lookup Bytes-discrete in refl;
        small = omega arith;
      })
      (unfold no_flush in refl)
