-- ===== src/Tests/Connections.antt =====
-- The protocol of the clients and the connections of replicas, at concrete inputs.
use dist_cache.Base.{
  ℕ, ◌≡◌, sym, ◌+◌, ◌++◌, refl, true, false, [], ◌∷◌, Bytes, bytes_eq, List, All, length, arith,
}
use dist_cache.Base.Assoc.{lookup}
use dist_cache.Base.Int64.{pos, negsuc}
use dist_cache.Base.Text.{text}
use dist_cache.Cache.Dispatch.{Message, event, ack, Dispatcher, dispatch}
use dist_cache.Cache.Dispatch.Numbers.{number, own_states, feed_each, dispatch-feed_each}
use dist_cache.Cache.Item.{Item, Event, flush_event}
use dist_cache.Cache.Shard.EventLog.{apply_to, replay}
use dist_cache.Cache.Store.{Cache, new_cache, per_shard}
use dist_cache.Cache.Shard.{new_shard}
use dist_cache.Replication.Codec.{encode_event}
use dist_cache.Cache.Store.Apply.{IsUnlimited}
use dist_cache.Cache.Store.Routing.{stored}
use dist_cache.Cache.Wire.{encode_payload}
use dist_cache.Eviction.Fifo.{fifo}
use dist_cache.Persistence.Snapshot.{exported}
use dist_cache.Replication.Primary.{
  ReplicaConn, new_conn, stream, stream_event, send_snapshot, write_event, write_items,
}
use dist_cache.Replication.Primary.Stream.{Move, streamed, streamed_on, Delivered, moves-Delivered}
use dist_cache.Replication.Replica.{new_replica, replicate, connection_error}
use dist_cache.Replication.Replica.Follows.{Captures, after_moves, replica_converges}
use dist_cache.Replication.Replica.Session.{IsSent}
use dist_cache.Resp.{got}
use dist_cache.Resp.Commands.{read_command-write_command}
use dist_cache.Resp.Progress.{Advances}
use dist_cache.Resp.Reader.{read_command}
use dist_cache.Resp.Value.{read_reply}
use dist_cache.Resp.Value.Ends.{readers_end}
use dist_cache.Resp.Writer.{write_command}
use dist_cache.Server.Reply.{Reply, Replies, write_reply}
use dist_cache.Server.Reply.RoundTrip.{Fits, value_of, read_reply-write_reply}
use dist_cache.Tests.Files.{first_set, first_set-IsWire, then_del, then_del-IsWire, two_events}

abbrev set_a : List Bytes
set_a = text "SET" ∷ text "a" ∷ (13 ∷ 10 ∷ []) ∷ []

read_command-write_command_example :
    read_command 100 (write_command set_a ++ text "*1") ≡ got set_a (text "*1")
read_command-write_command_example =
    read_command-write_command 100 set_a (text "*1") (omega arith) (omega arith) (omega arith)

abbrev answer : Reply
answer = Reply.array (
    Replies.more (Reply.int (negsuc 4))
      (Replies.more Reply.nil (Replies.more (Reply.bulk (10 ∷ [])) Replies.end)))

answer-Fits : Fits 100 100 answer
unfolding Fits
answer-Fits = omega arith

read_reply-write_reply_example :
    read_reply 100 100 (write_reply answer ++ text "+") ≡ got (value_of answer) (text "+")
read_reply-write_reply_example = read_reply-write_reply 100 100 answer (text "+") answer-Fits

readers_end_example :
    Advances (length (text "*1")) (read_command 100 (text "*1"))
    × Advances (length (text "*1")) (read_reply 100 100 (text "*1"))
readers_end_example = readers_end 100 100 (text "*1")

-- Two subscribers, each with the events that it has been told of: one keeps them in order, and
-- one the last of them only.
abbrev keeping : List (Event → List Event → List Event)
keeping =
    (λ (ev : Event). λ (l : List Event). l ++ ev ∷ [])
    ∷ (λ (ev : Event). λ (l : List Event). ev ∷ [])
    ∷ []

abbrev told_of : Dispatcher (List (List Event))
told_of = record { seq = 6; subscribers = own_states keeping; state = [] ∷ [] ∷ [] }

abbrev on_channel : List Message
on_channel = event first_set ∷ ack ∷ event flush_event ∷ []

told_both :
    feed_each keeping (number 6 (first_set ∷ flush_event ∷ [])) ([] ∷ [] ∷ [])
    ≡ (record first_set { seq = 7 } ∷ record flush_event { seq = 8 } ∷ [])
      ∷ (record flush_event { seq = 8 } ∷ [])
      ∷ []
unfolding number
told_both = refl

dispatch-feed_each_example :
    ((dispatch (List (List Event)) on_channel told_of).state
      ≡ feed_each keeping (number 6 (first_set ∷ flush_event ∷ [])) ([] ∷ [] ∷ []))
    × ((dispatch (List (List Event)) on_channel told_of).seq ≡ 6 + 2)
dispatch-feed_each_example = dispatch-feed_each keeping on_channel told_of refl (omega arith)

-- The item is the one after the first event, and both events wait in the channel.
abbrev one_item : List (Bytes × Item)
one_item = (97 ∷ [], record { value = 120 ∷ 121 ∷ []; expire_at = pos 0 }) ∷ []

abbrev waiting : ReplicaConn
waiting = record new_conn { ch = two_events }

abbrev two_rounds : List Move
two_rounds = streamed ∷ streamed ∷ []

abbrev by_nothing : Bytes → ℕ
by_nothing k = 0

abbrev empty_cache : Cache fifo
empty_cache = new_cache fifo (pos 1) (pos 0) (pos 0)

empty_cache-IsUnlimited : (i : ℕ) → IsUnlimited (empty_cache.shard i)
unfolding new_cache new_shard per_shard
empty_cache-IsUnlimited i = record { entries = refl; memory = refl }

first_set-IsSent : IsSent first_set
first_set-IsSent = record {
  wire = first_set-IsWire;
  fits = unfold encode_event encode_payload in omega arith;
}

then_del-IsSent : IsSent then_del
then_del-IsSent = record {
  wire = then_del-IsWire;
  fits = unfold encode_event encode_payload in omega arith;
}

snapshot-IsSent : All IsSent (flush_event ∷ exported one_item)
snapshot-IsSent = (
  record {
    wire = record {
      byte = omega arith;
      seq64 = omega arith;
      time64 = omega arith;
      short = omega arith;
    };
    fits = unfold encode_event encode_payload in omega arith;
  },
  (
    record {
      wire = record {
        byte = omega arith;
        seq64 = omega arith;
        time64 = omega arith;
        short = omega arith;
      };
      fits = unfold encode_event encode_payload in omega arith;
    },
    tt,
  ),
)

numbered_two : number 0 two_events ≡ two_events
unfolding number
numbered_two = refl

log-IsSent : All IsSent (number 0 two_events)
log-IsSent = rw numbered_two (first_set-IsSent, (then_del-IsSent, tt))

one_item-Captures : Captures (number 0 two_events) 1 one_item
unfolding Captures number replay apply_to
one_item-Captures j = (0, refl)

caught_up_fine : (after_moves 1 one_item waiting two_rounds).failed ≡ false
unfolding streamed_on stream stream_event write_event send_snapshot write_items
caught_up_fine = refl

caught_up_idle : (after_moves 1 one_item waiting two_rounds).ch ≡ []
unfolding streamed_on stream stream_event write_event send_snapshot write_items
caught_up_idle = refl

moves-Delivered_example :
    Delivered (send_snapshot 1 one_item waiting) [] (after_moves 1 one_item waiting two_rounds)
moves-Delivered_example =
    moves-Delivered two_rounds (send_snapshot 1 one_item waiting) caught_up_fine

replica_converges_example :
    (stored by_nothing
        (replicate by_nothing
          (after_moves 1 one_item waiting two_rounds).written
          (new_replica empty_cache)).0.cache
        (97 ∷ [])
      ≡ lookup (97 ∷ []) (replay (number 0 two_events) []))
    × ((replicate by_nothing
          (after_moves 1 one_item waiting two_rounds).written
          (new_replica empty_cache)).0.synced
        ≡ true)
    × ((replicate by_nothing
          (after_moves 1 one_item waiting two_rounds).written
          (new_replica empty_cache)).0.last_applied
        ≡ 2)
    × ((replicate by_nothing
          (after_moves 1 one_item waiting two_rounds).written
          (new_replica empty_cache)).1
        ≡ connection_error)
replica_converges_example =
    replica_converges by_nothing empty_cache two_events 0 1 one_item waiting two_rounds (97 ∷ [])
      empty_cache-IsUnlimited (omega arith) (omega arith) (omega arith) snapshot-IsSent log-IsSent
      one_item-Captures refl (sym numbered_two) caught_up_fine caught_up_idle
