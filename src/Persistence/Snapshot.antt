-- ===== src/Persistence/Snapshot.antt =====
-- internal/persistence/snapshot.go: the snapshot file, which is replaced whole by a rename. The
-- calls of the file system that succeed are modelled.
use dist_cache.Base.{
  ℕ, ◌^◌, ◌<◌, ◌≡◌, ◌&&◌, Option, none, some, List, [], ◌∷◌, ◌++◌, arith, Bytes, length, take, drop,
  All, if◌then◌else◌, leb, same, bytes_eq,
}
use dist_cache.Base.BigEndian.{put_u64, get_u64, get_u64-put_u64}
use dist_cache.Cache.Item.{Item, Event, set_event}
use dist_cache.Cache.Wire.{IsWire}
use dist_cache.Persistence.Aof.{Scan, ended, died, unfinished, read_aof, log_of}
use dist_cache.Persistence.Aof.Recovery.{read_aof-log_of}

-- "DCSNAP1\n"
abbrev pub snap_magic : Bytes
snap_magic = 68 ∷ 67 ∷ 83 ∷ 78 ∷ 65 ∷ 80 ∷ 49 ∷ 10 ∷ []

-- The events that stand for what `Export` gives.
abbrev pub exported : List (Bytes × Item) → List Event
exported [] = []
exported ((k, it) ∷ kvs) = set_event k it.value it.expire_at ∷ exported kvs

-- The file that `WriteSnapshot` renames into place.
unfoldable pub write_snapshot : ℕ → List (Bytes × Item) → Bytes
write_snapshot start_seq kvs = snap_magic ++ (put_u64 start_seq ++ log_of (exported kvs))

-- `startSeq` and the events handed on, `ErrBadSnapshot`, or a panic.
pub data Loaded : Type 0 where
  loaded : ℕ → List Event → Loaded
  bad_snapshot : Loaded
  load_died : Loaded

abbrev of_scan : ℕ → Scan → Loaded
of_scan start_seq s = elim s.ending as (λ _. Loaded) [
  | ended ↦ loaded start_seq s.events
  | died ↦ load_died
  | unfinished ↦ load_died
]

-- A missing file is `none`. The records are read as those of the append-only file.
unfoldable pub read_snapshot : Option Bytes → Loaded
read_snapshot none = loaded 0 []
read_snapshot (some bytes) =
    if leb 16 (length bytes) && same (take 8 bytes) snap_magic
    then of_scan (get_u64 (drop 8 bytes)) (read_aof (drop 16 bytes))
    else bad_snapshot

seq-write_snapshot :
    (n : ℕ) (kvs : List (Bytes × Item)) → n < 2 ^ 64 → get_u64 (drop 8 (write_snapshot n kvs)) ≡ n
unfolding write_snapshot
seq-write_snapshot n kvs h = get_u64-put_u64 n (log_of (exported kvs)) h

-- A snapshot of items that fit their encoding, with a sequence number of 64 bits, is read back.
pub read_snapshot-write_snapshot :
    (n : ℕ) (kvs : List (Bytes × Item))
    → n < 2 ^ 64
    → All IsWire (exported kvs)
    → read_snapshot (some (write_snapshot n kvs)) ≡ loaded n (exported kvs)
unfolding read_snapshot
read_snapshot-write_snapshot n kvs h ws =
    rw (seq-write_snapshot n kvs h)
      (unfold write_snapshot in rw (read_aof-log_of (exported kvs) ws) (ground arith))
