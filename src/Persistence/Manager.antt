-- ===== src/Persistence/Manager.antt =====
-- internal/persistence/manager.go: recovery and the snapshots of a running cache.
use dist_cache.Base.{ℕ, ◌^◌, ◌<◌, ◌≡◌, ap, ◌∙◌, Option, some, List, [], ◌++◌, Bytes, bytes_eq, All}
use dist_cache.Base.Assoc.{lookup}
use dist_cache.Base.Int64.{ℤ, pos}
use dist_cache.Cache.Item.{Item, Event}
use dist_cache.Cache.Shard.EventLog.{replay, replay-append}
use dist_cache.Cache.Store.{Cache, new_cache, export}
use dist_cache.Cache.Store.Apply.{apply_events, apply_events-replay}
use dist_cache.Cache.Store.Routing.{stored}
use dist_cache.Cache.Wire.{IsWire}
use dist_cache.Eviction.Policy.{Policy}
use dist_cache.Persistence.Aof.{
  Scan, scan, ended, died, unfinished, read_records, later_than, log_of, Aof, compact,
}
use dist_cache.Persistence.Aof.Recovery.{read_aof-log_of}
use dist_cache.Persistence.Snapshot.{
  loaded, bad_snapshot, load_died, read_snapshot, write_snapshot, exported,
  read_snapshot-write_snapshot,
}

-- What `Recover` does to the cache: the recovered cache, an error, or a panic.
pub data Recovered {ℓ} (A : Type ℓ) : Type ℓ where
  recovered : A → Recovered A
  failed : Recovered A
  crashed : Recovered A

module _ (hash : Bytes → ℕ) {p : Policy} where
  -- The events of the append-only file after those of the snapshot.
  abbrev pub then_aof : Cache p → List Event → Scan → Recovered (Cache p)
  then_aof c evs s = elim s.ending as (λ _. Recovered (Cache p)) [
    | ended ↦ recovered (apply_events hash (evs ++ s.events) c)
    | died ↦ crashed
    | unfinished ↦ crashed
  ]

  -- The snapshot's events, then those of the append-only file that are later than it.
  unfoldable pub recover : Option Bytes → Bytes → Cache p → Recovered (Cache p)
  recover snapshot file c = elim (read_snapshot snapshot) as (λ _. Recovered (Cache p)) [
    | loaded start_seq evs ↦ then_aof c evs (read_records start_seq file)
    | bad_snapshot ↦ failed
    | load_died ↦ crashed
  ]

-- `Snapshot`: the new snapshot file and the compacted append-only file, for the sequence number
-- that the cache has delivered.
unfoldable pub snapshot : {p : Policy} → ℕ → ℤ → Cache p → Aof → Bytes × Option Aof
snapshot seq now c a = (write_snapshot seq (export now c), compact seq a)

-- A snapshot of some items and the log of some events, all of which fit their encoding: into a new
-- cache without limits, recovery puts for every key what a map has that takes the items of the
-- snapshot, and then the events of the log that are later than the snapshot.
pub recover-replay :
    (hash : Bytes → ℕ) (p : Policy) (shards : ℤ) (n : ℕ) (kvs : List (Bytes × Item))
    (evs : List Event) (j : Bytes)
    → n < 2 ^ 64
    → All IsWire (exported kvs)
    → All IsWire evs
    → (c : Cache p) × (recover hash
          (some (write_snapshot n kvs))
          (log_of evs)
          (new_cache p shards (pos 0) (pos 0))
        ≡ recovered c)
      × (stored hash c j ≡ lookup j (replay (later_than n evs) (replay (exported kvs) [])))
unfolding recover read_records
recover-replay hash p shards n kvs evs j h ws vs = (
  apply_events hash (exported kvs ++ later_than n evs) (new_cache p shards (pos 0) (pos 0)),
  rw (recover, read_snapshot-write_snapshot n kvs h ws)
      (ap
        (λ s.
          then_aof hash (new_cache p shards (pos 0) (pos 0)) (exported kvs)
            (scan (later_than n s.events) s.ending))
        (read_aof-log_of evs vs)),
  apply_events-replay hash p shards (exported kvs ++ later_than n evs) j
      ∙ ap (lookup j) (replay-append (exported kvs) (later_than n evs) []),
)
