-- ===== src/Tests/Topics.antt =====
-- internal/pubsub, at concrete inputs.
use dist_cache.Base.{
  ◌≡◌, refl, if◌then◌else◌, [], ◌∷◌, Bytes, Bytes-discrete, bytes_eq, nat_eq, some, none, length,
  false,
}
use dist_cache.Base.Assoc.{lookup, insert}
use dist_cache.PubSub.{Subscription, Broker, members, close, publish, send_all, send, remove}
use dist_cache.PubSub.Delivery.{member, offered_to, publish_offers}

abbrev news : Bytes
news = 110 ∷ []

-- A subscription with room for one message, and one that is full.
abbrev roomy : Subscription
roomy = record { topic = news; size = 1; queue = []; closed = false; dropped = 0 }

abbrev filled : Subscription
filled = record { topic = news; size = 0; queue = []; closed = false; dropped = 3 }

abbrev two : Broker
two = record { topics = (news, 1 ∷ 2 ∷ []) ∷ []; subs = (1, roomy) ∷ (2, filled) ∷ []; next = 3 }

-- A subscription that closes between the copy of the targets and the sends makes `Publish` panic.
publish_beside_close :
    send_all (record { topic = news; payload = [] }) (members news two) (close 1 two) ≡ none
unfolding send_all send close remove lookup insert Bytes-discrete
publish_beside_close = refl

publish_offers_example :
    (b' : Broker) × (publish news (5 ∷ []) two ≡ some (b', length (members news two)))
    × (lookup 2 b'.subs ≡ (
        if member 2 (members news two)
        then offered_to (record { topic = news; payload = 5 ∷ [] }) (lookup 2 two.subs)
        else lookup 2 two.subs))
publish_offers_example =
    publish_offers news (5 ∷ []) two 2 (unfold lookup Bytes-discrete in (refl, (refl, tt))) (
      unfold lookup Bytes-discrete in
      (
        record { sub = roomy; found = refl; still_open = refl },
        (record { sub = filled; found = refl; still_open = refl }, tt),
      ))
