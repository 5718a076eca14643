-- ===== src/Tests/Caches.antt =====
-- The cache over its shards, snapshots, recovery and frames, at concrete inputs.
use dist_cache.Base.{
  ℕ, ◌≡◌, ◌++◌, ◌&&◌, ◌==◌, refl, ite, if◌then◌else◌, [], ◌∷◌, some, none, Bytes, Bytes-discrete,
  bytes_eq, List, All, arith,
}
use dist_cache.Base.Assoc.{lookup}
use dist_cache.Base.Int64.{pos}
use dist_cache.Cache.Item.{Item}
use dist_cache.Cache.Shard.EventLog.{replay}
use dist_cache.Cache.Shard.Evicted.{member}
use dist_cache.Cache.Shard.Reads.{value_or_empty, is_some}
use dist_cache.Cache.Store.{Cache, index, set_ttl, get, double_loop, next_pow2, new_cache}
use dist_cache.Cache.Store.Apply.{apply_events, apply_events-replay}
use dist_cache.Cache.Store.Routing.{stored, seen, victims, new_item, stored-set_ttl, get-seen}
use dist_cache.Cache.Wire.{Decoded, IsWire, encode_payload}
use dist_cache.Eviction.Fifo.{fifo}
use dist_cache.Eviction.Lru.{lru}
use dist_cache.Persistence.Aof.{log_of, later_than}
use dist_cache.Persistence.Manager.{Recovered, recover, recover-replay}
use dist_cache.Persistence.Snapshot.{
  Loaded, exported, read_snapshot, write_snapshot, read_snapshot-write_snapshot,
}
use dist_cache.Replication.Codec.{
  Frame, frame_event, read_frame, write_frame, encode_event, decode_event, read_u64, u64_bytes,
  event_over_wire,
}
use dist_cache.Tests.Files.{first_set, two_events, first_set-IsWire, two_events-IsWire}

-- Keys go by their first byte.
abbrev first_byte : Bytes → ℕ
first_byte [] = 0
first_byte (b ∷ _) = b

abbrev a : Bytes
a = 97 ∷ []

abbrev b : Bytes
b = 98 ∷ []

-- Two shards of one entry each.
abbrev small : Cache lru
small = set_ttl first_byte a (120 ∷ []) (pos 5) (pos 100) (new_cache lru (pos 2) (pos 2) (pos 0))

next_pow2_of_five : next_pow2 5 ≡ 8
unfolding next_pow2 double_loop
next_pow2_of_five = refl

stored-set_ttl_example :
    stored first_byte (set_ttl first_byte (99 ∷ []) (121 ∷ []) (pos 0) (pos 7) small) a
    ≡ ite (Bytes-discrete (99 ∷ []) a) (some (new_item (121 ∷ []) (pos 0) (pos 7))) (
        if (index first_byte a small == index first_byte (99 ∷ []) small)
          && member a (victims first_byte (99 ∷ []) (121 ∷ []) (pos 0) (pos 7) small)
        then none
        else stored first_byte small a)
stored-set_ttl_example = stored-set_ttl first_byte (99 ∷ []) (121 ∷ []) (pos 0) (pos 7) small a

get-seen_example :
    ((get first_byte a (pos 200) small).1 ≡ value_or_empty (seen first_byte (pos 200) small a))
    × ((get first_byte a (pos 200) small).2 ≡ is_some (seen first_byte (pos 200) small a))
    × (seen first_byte (pos 200) (get first_byte a (pos 200) small).0 b
        ≡ seen first_byte (pos 200) small b)
get-seen_example = get-seen first_byte a (pos 200) small b

apply_events-replay_example :
    stored first_byte
      (apply_events first_byte two_events (new_cache fifo (pos 4) (pos 0) (pos 0)))
      a
    ≡ lookup a (replay two_events [])
apply_events-replay_example = apply_events-replay first_byte fifo (pos 4) two_events a

abbrev one_item : List (Bytes × Item)
one_item = (b, record { value = 1 ∷ []; expire_at = pos 9 }) ∷ []

one_item-IsWire : All IsWire (exported one_item)
one_item-IsWire = (
  record { byte = omega arith; seq64 = omega arith; time64 = omega arith; short = omega arith },
  tt,
)

read_snapshot-write_snapshot_example :
    read_snapshot (some (write_snapshot 1 one_item)) ≡ Loaded.loaded 1 (exported one_item)
read_snapshot-write_snapshot_example =
    read_snapshot-write_snapshot 1 one_item (omega arith) one_item-IsWire

recover-replay_example :
    (c : Cache fifo) × (recover first_byte
        (some (write_snapshot 1 one_item))
        (log_of two_events)
        (new_cache fifo (pos 4) (pos 0) (pos 0))
      ≡ Recovered.recovered c)
    × (stored first_byte c a
        ≡ lookup a (replay (later_than 1 two_events) (replay (exported one_item) [])))
recover-replay_example =
    recover-replay first_byte fifo (pos 4) 1 one_item two_events a (omega arith) one_item-IsWire
      two_events-IsWire

event_over_wire_example :
    (read_frame (write_frame frame_event (encode_event first_set) ++ (7 ∷ []))
      ≡ Frame.frame frame_event (encode_event first_set) (7 ∷ []))
    × (decode_event (encode_event first_set) ≡ Decoded.got first_set)
    × (read_u64 (u64_bytes 300) ≡ some 300)
event_over_wire_example =
    event_over_wire first_set (7 ∷ []) 300 first_set-IsWire
      (unfold encode_event encode_payload in omega arith) (omega arith)
