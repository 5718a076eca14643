-- ===== src/PubSub.antt =====
-- internal/pubsub/pubsub.go: topics and their subscriptions. A pointer to a subscription is a
-- number; `subs` is what the pointers lead to. A subscription's channel is its queued messages.
pub mod Delivery
use dist_cache.Base.{
  ℕ, zero, suc, ◌+◌, ◌%◌, ◌^◌, Bool, true, false, not, ◌||◌, Option, none, some, List, [], ◌∷◌,
  ◌++◌, Bytes, same, bytes_eq, nat_eq, length, map, if◌then◌else◌, ltb, ◌==◌,
}
use dist_cache.Base.Assoc.{Assoc, lookup, insert, erase}

pub record Message : Type 0 where
  pub topic : Bytes
  pub payload : Bytes

pub record Subscription : Type 0 where
  pub topic : Bytes
  -- the channel: its size, what waits in it, and whether it is closed
  pub size : ℕ
  pub queue : List Message
  pub closed : Bool
  pub dropped : ℕ

pub record Broker : Type 0 where
  pub topics : Assoc Bytes (List ℕ)
  pub subs : Assoc ℕ Subscription
  pub next : ℕ

abbrev pub new_broker : Broker
new_broker = record { topics = []; subs = []; next = 0 }

-- The subscriptions of a topic.
abbrev pub members : Bytes → Broker → List ℕ
members topic b = elim (lookup topic b.topics) [ none ↦ [] | some ids ↦ ids ]

unfoldable pub subscribe : Bytes → ℕ → Broker → Broker × ℕ
subscribe topic buffer b =
    let sub : Subscription = record {
      topic = topic;
      size = if buffer == 0 then 16 else buffer;
      queue = [];
      closed = false;
      dropped = 0;
    } in
    (
      record {
        topics = insert topic (b.next ∷ members topic b) b.topics;
        subs = insert b.next sub b.subs;
        next = b.next + 1;
      },
      b.next,
    )

-- `select { case s.ch <- msg: default: … }`: a message for a full channel is dropped, and a send
-- to a closed channel panics, which is `none`.
unfoldable pub send : Message → Subscription → Option Subscription
send msg s =
    if s.closed
    then none
    else if ltb (length s.queue) s.size
    then some (record s { queue = s.queue ++ msg ∷ [] })
    else some (record s { dropped = (s.dropped + 1) % 2 ^ 64 })

-- The loop of `Publish` over the targets, which it has copied before.
unfoldable pub send_all : Message → List ℕ → Broker → Option Broker
unfolding send
send_all msg [] b = some b
send_all msg (i ∷ is) b = elim (lookup i b.subs) [
  | none ↦ none
  | some s ↦ elim (send msg s) [
    | none ↦ none
    | some s' ↦ send_all msg is (record b { subs = insert i s' b.subs })
  ]
]

-- The number of the targets, with nobody else in between the copy and the loop.
unfoldable pub publish : Bytes → Bytes → Broker → Option (Broker × ℕ)
unfolding send_all
publish topic payload b =
    elim (send_all (record { topic = topic; payload = payload }) (members topic b) b) [
      | none ↦ none
      | some b' ↦ some (b', length (members topic b))
    ]

unfoldable pub num_subscribers : Bytes → Broker → ℕ
num_subscribers topic b = length (members topic b)

unfoldable pub topic_names : Broker → List Bytes
topic_names b = map (λ (e : Bytes × List ℕ). e.0) b.topics

abbrev pub without : ℕ → List ℕ → List ℕ
without i [] = []
without i (j ∷ js) = let rest = without i js in if i == j then rest else j ∷ rest

abbrev is_empty : List ℕ → Bool
is_empty [] = true
is_empty (i ∷ is) = false

-- `remove`: the subscription leaves its topic, and an empty topic goes.
unfoldable pub remove : ℕ → Subscription → Broker → Broker
remove i s b = elim (lookup s.topic b.topics) [
  | none ↦ b
  | some ids ↦
      if is_empty (without i ids)
      then record b { topics = erase s.topic b.topics }
      else record b { topics = insert s.topic (without i ids) b.topics }
]

-- `Close`, the first time; later calls do nothing.
unfoldable pub close : ℕ → Broker → Broker
unfolding remove
close i b = elim (lookup i b.subs) [
  | none ↦ b
  | some s ↦
      if s.closed
      then b
      else (let b' = remove i s b in
          record b' { subs = insert i (record s { closed = true }) b'.subs })
]
