-- ===== src/PubSub/Delivery.antt =====
-- What a published message does to the subscriptions.
use dist_cache.Base.{
  ℕ, ◌+◌, ◌%◌, ◌^◌, ◌≡◌, refl, Bool, false, ◌||◌, Option, none, some, List, [], ◌∷◌, ◌++◌, Bytes,
  bytes_eq, nat_eq, length, if◌then◌else◌, ltb, ◌==◌, arith, All,
}
use dist_cache.Base.Assoc.{lookup, insert, lookup-insert}
use dist_cache.PubSub.{Message, Subscription, Broker, members, send, send_all, publish}

abbrev pub member : ℕ → List ℕ → Bool
member i [] = false
member i (j ∷ js) = (j == i) || member i js

-- Each number once.
abbrev pub AllDistinct : List ℕ → Type 0
AllDistinct [] = Unit
AllDistinct (i ∷ is) = (member i is ≡ false) × AllDistinct is

-- An open subscription of the broker.
pub record IsOpen (b : Broker) (i : ℕ) : Type 0 where
  pub sub : Subscription
  pub found : lookup i b.subs ≡ some sub
  pub still_open : sub.closed ≡ false

-- A subscription that a message was offered: it waits at the end of the queue if there is room,
-- and is counted as dropped otherwise.
unfoldable pub offered : Message → Subscription → Subscription
offered msg s =
    if ltb (length s.queue) s.size
    then record s { queue = s.queue ++ msg ∷ [] }
    else record s { dropped = (s.dropped + 1) % 2 ^ 64 }

abbrev pub offered_to : Message → Option Subscription → Option Subscription
offered_to msg none = none
offered_to msg (some s) = some (offered msg s)

send-offered :
    (msg : Message) (s : Subscription) → s.closed ≡ false → send msg s ≡ some (offered msg s)
unfolding send offered
send-offered msg s h = rw (send, h) (ground arith)

abbrev after : ℕ → Message → Subscription → Broker → Broker
after i msg s b = record b { subs = insert i (offered msg s) b.subs }

IsOpen-after :
    (i j : ℕ) (msg : Message) (s : Subscription) (b : Broker)
    → (i == j) ≡ false
    → IsOpen b j
    → IsOpen (after i msg s b) j
IsOpen-after i j msg s b n o = record {
  sub = o.sub;
  found = ground (arith, n, lookup-insert i j (offered msg s) b.subs, o.found);
  still_open = o.still_open;
}

All-IsOpen-after :
    (i : ℕ) (msg : Message) (s : Subscription) (b : Broker) (js : List ℕ)
    → member i js ≡ false
    → All (IsOpen b) js
    → All (IsOpen (after i msg s b)) js
All-IsOpen-after i msg s b [] n o = tt
All-IsOpen-after i msg s b (j ∷ js) n (o, os) = (
  IsOpen-after i j msg s b (ground (arith, n)) o,
  All-IsOpen-after i msg s b js (ground (arith, n)) os,
)

-- Targets that are distinct and open, in any order: no send panics, each target has been offered
-- the message once, and no other subscription has changed.
send_all_offers :
    (msg : Message) (is : List ℕ) (b : Broker)
    → AllDistinct is
    → All (IsOpen b) is
    → (b' : Broker) × (send_all msg is b ≡ some b')
      × ((j : ℕ)
          → lookup j b'.subs
            ≡ (if member j is then offered_to msg (lookup j b.subs) else lookup j b.subs))
unfolding send_all
send_all_offers msg [] b d o = (b, refl, λ j. refl)
send_all_offers msg (i ∷ is) b (m, d) (o, os) =
    let (b', e, l) =
      send_all_offers msg is (after i msg o.sub b) d (All-IsOpen-after i msg o.sub b is m os) in
    (
      b',
      rw (send_all, o.found, send-offered msg o.sub o.still_open) e,
      λ j. ground (arith, l j, m, o.found, lookup-insert i j (offered msg o.sub) b.subs),
    )

-- When the subscriptions of a topic are distinct and open, `Publish` does not panic and gives their
-- number; each of them has been offered the message, and no other subscription has changed.
pub publish_offers :
    (topic payload : Bytes) (b : Broker) (j : ℕ)
    → AllDistinct (members topic b)
    → All (IsOpen b) (members topic b)
    → (b' : Broker) × (publish topic payload b ≡ some (b', length (members topic b)))
      × (lookup j b'.subs ≡ (
          if member j (members topic b)
          then offered_to (record { topic = topic; payload = payload }) (lookup j b.subs)
          else lookup j b.subs))
unfolding publish
publish_offers topic payload b j d o =
    let (b', e, l) =
      send_all_offers (record { topic = topic; payload = payload }) (members topic b) b d o in
    (b', rw (publish, e) refl, l j)
