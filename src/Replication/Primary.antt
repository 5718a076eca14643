-- ===== src/Replication/Primary.antt =====
-- internal/replication/primary.go: the connections to the replicas. A pointer to a connection is a
-- number. What a method writes is added to `written`: the buffer and the network behind it give no
-- error.
pub mod Stream
use dist_cache.Base.{
  ℕ, zero, suc, ◌+◌, Bool, true, false, Option, none, some, List, [], ◌∷◌, ◌++◌, Bytes, same,
  bytes_eq, nat_eq, length, take, drop, map, if◌then◌else◌, ltb, leb, ◌==◌,
}
use dist_cache.Base.Assoc.{Assoc, insert, erase}
use dist_cache.Base.Text.{text}
use dist_cache.Cache.Item.{Item, Event, set_event, flush_event}
use dist_cache.Replication.Codec.{
  frame_event, write_frame, encode_event, u64_bytes, read_u64, read_frame, Frame, frame, cut_off,
  too_large,
}

abbrev pub repl_magic : Bytes
repl_magic = 68 ∷ 67 ∷ 82 ∷ 69 ∷ 80 ∷ 76 ∷ 49 ∷ 10 ∷ []

abbrev pub frame_synced : ℕ
frame_synced = 2

abbrev pub frame_ack : ℕ
frame_ack = 3

pub record ReplicaConn : Type 0 where
  -- the channel, of `channel_size` events
  pub ch : List Event
  pub start_seq : ℕ
  pub last_sent : ℕ
  pub last_ack : ℕ
  -- whether `done` is closed
  pub failed : Bool
  pub written : Bytes

abbrev pub channel_size : ℕ
channel_size = 8192

abbrev pub new_conn : ReplicaConn
new_conn = record {
  ch = [];
  start_seq = 0;
  last_sent = 0;
  last_ack = 0;
  failed = false;
  written = [];
}

unfoldable pub fail : ReplicaConn → ReplicaConn
fail rc = record rc { failed = true }

-- `select { case rc.ch <- ev: default: rc.fail() }`
unfoldable pub offer : Event → ReplicaConn → ReplicaConn
unfolding fail
offer ev rc =
    if ltb (length rc.ch) channel_size then record rc { ch = rc.ch ++ ev ∷ [] } else fail rc

abbrev pub Primary : Type 0
Primary = Assoc ℕ ReplicaConn

unfoldable pub on_event : Event → Primary → Primary
unfolding offer
on_event ev [] = []
on_event ev ((i, rc) ∷ p) = (i, offer ev rc) ∷ on_event ev p

-- The start of `handle`: the magic bytes, and the bytes of the replica behind them; `none` closes
-- the connection.
unfoldable pub greet : Bytes → Option Bytes
greet bytes =
    if ltb (length bytes) 8
    then none
    else if same (take 8 bytes) repl_magic
    then some (drop 8 bytes)
    else none

-- `p.replicas[rc] = struct{}{}`, and the deferred `delete`.
unfoldable pub register : ℕ → Primary → Primary
register i p = insert i new_conn p

unfoldable pub unregister : ℕ → Primary → Primary
unregister i p = erase i p

unfoldable pub write_event : Event → ReplicaConn → ReplicaConn
write_event ev rc = record rc { written = rc.written ++ write_frame frame_event (encode_event ev) }

-- The callback of `Export`, for each item in turn.
unfoldable pub write_items : List (Bytes × Item) → ReplicaConn → ReplicaConn
unfolding write_event
write_items [] rc = rc
write_items ((k, it) ∷ items) rc =
    write_items items (write_event (set_event k it.value it.expire_at) rc)

-- `sendSnapshot`, for the sequence number that `Seq` gives after `Sync`, and the items that
-- `Export` hands out.
unfoldable pub send_snapshot : ℕ → List (Bytes × Item) → ReplicaConn → ReplicaConn
unfolding write_items
send_snapshot seq items rc =
    let rc' = write_items items (write_event flush_event (record rc { start_seq = seq })) in
    record rc' { written = rc'.written ++ write_frame frame_synced (u64_bytes seq) }

-- One round of `stream` that takes an event.
unfoldable pub stream_event : Event → ReplicaConn → ReplicaConn
unfolding write_event
stream_event ev rc =
    if leb ev.seq rc.start_seq then rc else record (write_event ev rc) { last_sent = ev.seq }

abbrev pub stream_from : List Event → ReplicaConn → Option ReplicaConn
stream_from [] rc = none
stream_from (ev ∷ evs) rc = some (stream_event ev (record rc { ch = evs }))

-- `none` where the round returns or waits: the connection has failed, or no event is there.
unfoldable pub stream : ReplicaConn → Option ReplicaConn
unfolding stream_event
stream rc = if rc.failed then none else stream_from rc.ch rc

-- A round of `readAcks`: the frame is dealt with; an error fails the connection.
unfoldable pub on_ack : Frame → ReplicaConn → ReplicaConn
unfolding fail
on_ack (frame typ payload rest) rc =
    if typ == frame_ack
    then (elim (read_u64 payload) as (λ _. ReplicaConn) [
      | none ↦ rc
      | some seq ↦ record rc { last_ack = seq }
    ])
    else rc
on_ack cut_off rc = fail rc
on_ack too_large rc = fail rc

-- The rounds, with fuel; each takes five bytes at least.
unfoldable pub read_acks_loop : ℕ → Bytes → ReplicaConn → ReplicaConn
unfolding on_ack
read_acks_loop zero bytes rc = rc
read_acks_loop (suc fuel) bytes rc = elim (read_frame bytes) as (λ _. ReplicaConn) [
  | frame typ payload rest ↦ read_acks_loop fuel rest (on_ack (frame typ payload rest) rc)
  | cut_off ↦ on_ack cut_off rc
  | too_large ↦ on_ack too_large rc
]

unfoldable pub read_acks : Bytes → ReplicaConn → ReplicaConn
unfolding read_acks_loop
read_acks bytes rc = read_acks_loop (suc (length bytes)) bytes rc

-- `Replicas`: the address is left out, and the time of the connection.
unfoldable pub replicas : Primary → List (ℕ × ℕ)
replicas p = map (λ (e : ℕ × ReplicaConn). (e.1.last_sent, e.1.last_ack)) p

unfoldable pub num_replicas : Primary → ℕ
num_replicas p = length p

-- `Close` fails every connection.
unfoldable pub close : Primary → Primary
unfolding fail
close [] = []
close ((i, rc) ∷ p) = (i, fail rc) ∷ close p
