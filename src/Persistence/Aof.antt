-- ===== src/Persistence/Aof.antt =====
-- internal/persistence/aof.go: the append-only file. The file system's calls and the buffered
-- writer are not under this repository: the file is its bytes, and how many of the buffered bytes
-- the writer hands over at a write is an argument. The calls that succeed are modelled.
pub mod Recovery
pub mod Crash
pub mod Torn
pub mod Ends
use dist_cache.Base.{
  ℕ, zero, suc, ◌+◌, ◌≡◌, Bool, true, false, List, [], ◌∷◌, ◌++◌, Option, none, some, Bytes, length,
  take, drop, if◌then◌else◌, ltb,
}
use dist_cache.Cache.Item.{Event}
use dist_cache.Persistence.Codec.{
  Reading, read, at_end, torn, crashed, encode_record, decode_record,
}

pub data SyncPolicy : Type 0 where
  sync_no : SyncPolicy
  sync_every_sec : SyncPolicy
  sync_always : SyncPolicy

-- How a pass over the file stops: at the end or a torn record, in a panic, or out of fuel.
pub data Ending : Type 0 where
  ended : Ending
  died : Ending
  unfinished : Ending

pub record Scan : Type 0 where
  pub events : List Event
  pub ending : Ending

abbrev pub scan : List Event → Ending → Scan
scan evs e = record { events = evs; ending = e }

abbrev pub with_event : Event → Scan → Scan
with_event ev s = scan (ev ∷ s.events) s.ending

-- The loop of `ReadAOF`: the events that it hands on, in order.
unfoldable pub read_loop : ℕ → Bytes → Scan
read_loop zero bytes = scan [] unfinished
read_loop (suc fuel) bytes = elim (decode_record bytes) as (λ _. Scan) [
  | read ev rest ↦ with_event ev (read_loop fuel rest)
  | at_end ↦ scan [] ended
  | torn ↦ scan [] ended
  | crashed ↦ scan [] died
]

unfoldable pub read_aof : Bytes → Scan
read_aof bytes = read_loop (suc (length bytes)) bytes

abbrev pub later_than : ℕ → List Event → List Event
later_than n [] = []
later_than n (ev ∷ evs) = if ltb n ev.seq then ev ∷ later_than n evs else later_than n evs

-- `readRecords`: the events after a sequence number.
unfoldable pub read_records : ℕ → Bytes → Scan
read_records n bytes = scan (later_than n (read_aof bytes).events) (read_aof bytes).ending

unfoldable pub log_of : List Event → Bytes
log_of [] = []
log_of (ev ∷ evs) = encode_record ev ++ log_of evs

pub record Aof : Type 0 where
  pub policy : SyncPolicy
  pub disk : Bytes
  pub buffer : Bytes

unfoldable pub open_aof : SyncPolicy → Bytes → Aof
open_aof p file = record { policy = p; disk = file; buffer = [] }

-- `Flush` and `Sync`: the buffered bytes reach the file.
unfoldable pub sync : Aof → Aof
sync a = record a { disk = a.disk ++ a.buffer; buffer = [] }

-- `Append`, at which the writer hands over its first `spill` bytes.
unfoldable pub append : ℕ → Event → Aof → Aof
append spill ev a = elim a.policy as (λ _. Aof) [
  | sync_always ↦ sync written
  | sync_no ↦ written
  | sync_every_sec ↦ written
]
  where
    pending : Bytes
    pending = a.buffer ++ encode_record ev

    written : Aof
    written = record a { disk = a.disk ++ take spill pending; buffer = drop spill pending }

-- The rest of `Compact`, of the records that it keeps: the file is rewritten with them, unless the
-- pass over it panicked.
abbrev pub rewrite : SyncPolicy → Scan → Option Aof
rewrite p kept = elim kept.ending as (λ _. Option Aof) [
  | ended ↦ some (open_aof p (log_of kept.events))
  | died ↦ none
  | unfinished ↦ none
]

unfoldable pub compact : ℕ → Aof → Option Aof
compact n a = rewrite a.policy (read_records n (sync a).disk)
