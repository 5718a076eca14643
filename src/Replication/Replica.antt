-- ===== src/Replication/Replica.antt =====
-- internal/replication/replica.go: the replica's cache and its counters. The connection is the
-- bytes that have still to be read.
pub mod Session
pub mod Follows
use dist_cache.Base.{
  ℕ, zero, suc, ◌+◌, Bool, true, false, Option, none, some, List, [], ◌∷◌, ◌++◌, Bytes, length,
  if◌then◌else◌, ltb, ◌==◌,
}
use dist_cache.Cache.Item.{Item, Event}
use dist_cache.Cache.Store.{Cache, apply_event}
use dist_cache.Cache.Wire.{Decoded}
use dist_cache.Eviction.Policy.{Policy}
use dist_cache.Replication.Codec.{
  frame_event, write_frame, decode_event, u64_bytes, read_u64, read_frame, Frame, frame, cut_off,
  too_large,
}
use dist_cache.Replication.Primary.{frame_synced, frame_ack, repl_magic}

-- How `replicate` ends: an error of the connection, a frame that is too large, an event that
-- `decodeEvent` refuses, or its panic. The last one is out of fuel.
pub data Ending : Type 0 where
  connection_error : Ending
  frame_too_large : Ending
  bad_event : Ending
  crashed : Ending
  out_of_fuel : Ending

pub record Replica (p : Policy) : Type 0 where
  pub cache : Cache p
  pub synced : Bool
  pub last_applied : ℕ

abbrev pub new_replica : {p : Policy} → Cache p → Replica p
new_replica c = record { cache = c; synced = false; last_applied = 0 }

module _ (hash : Bytes → ℕ) {p : Policy} where
  unfoldable pub on_replicated : Event → Replica p → Replica p
  on_replicated ev r = record r {
    cache = apply_event hash ev r.cache;
    last_applied = if ltb 0 ev.seq then ev.seq else r.last_applied;
  }

  unfoldable pub on_synced : Bytes → Replica p → Replica p
  on_synced payload r = record r {
    last_applied = elim (read_u64 payload) as (λ _. ℕ) [ none ↦ r.last_applied | some seq ↦ seq ];
    synced = true;
  }

  -- A round of `replicate` on a frame; an ending stops the loop.
  unfoldable pub on_frame : ℕ → Bytes → Replica p → Replica p × Option Ending
  unfolding on_replicated on_synced
  on_frame typ payload r =
      if typ == frame_event
      then (elim (decode_event payload) as (λ _. Replica p × Option Ending) [
        | Decoded.got ev ↦ (on_replicated ev r, none)
        | Decoded.malformed ↦ (r, some bad_event)
        | Decoded.panicked ↦ (r, some crashed)
      ])
      else if typ == frame_synced
      then (on_synced payload r, none)
      else (r, none)

  -- The rounds, with fuel; each takes five bytes at least.
  unfoldable pub replicate_loop : ℕ → Bytes → Replica p → Replica p × Ending
  unfolding on_frame
  replicate_loop zero bytes r = (r, out_of_fuel)
  replicate_loop (suc fuel) bytes r = elim (read_frame bytes) as (λ _. Replica p × Ending) [
    | frame typ payload rest ↦
        let step = on_frame typ payload r in
        elim step.1 as (λ _. Replica p × Ending) [
          | none ↦ replicate_loop fuel rest step.0
          | some e ↦ (step.0, e)
        ]
    | cut_off ↦ (r, connection_error)
    | too_large ↦ (r, frame_too_large)
  ]

  unfoldable pub replicate : Bytes → Replica p → Replica p × Ending
  unfolding replicate_loop
  replicate bytes r = replicate_loop (suc (length bytes)) bytes r

  -- A round of `run`: every ending is an error, and the replica is no longer in step.
  unfoldable pub run : Bytes → Replica p → Replica p
  unfolding replicate
  run bytes r = record (replicate bytes r).0 { synced = false }

module _ {p : Policy} where
  -- A tick of `ackLoop`.
  unfoldable pub ack : Replica p → Bytes
  ack r = write_frame frame_ack (u64_bytes r.last_applied)
