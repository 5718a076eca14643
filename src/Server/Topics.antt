-- ===== src/Server/Topics.antt =====
-- server_pubsub.go: the topics of a connection.
use dist_cache.Base.{
  ℕ, Option, none, some, List, [], ◌∷◌, Bytes, length, map, same, bytes_eq, if◌then◌else◌,
}
use dist_cache.Base.Assoc.{lookup, insert, erase}
use dist_cache.Base.Int64.{pos}
use dist_cache.Base.Text.{text}
use dist_cache.Eviction.Policy.{Policy}
use dist_cache.PubSub
use dist_cache.PubSub.{Broker, Message}
use dist_cache.Server.Conn.{Server, Conn}
use dist_cache.Server.Reply.{Reply, replies, error, int, bulk, nil, array}

-- `confirm`
unfoldable pub confirm : Bytes → Bytes → ℕ → Reply
confirm kind topic count =
    array (replies (bulk kind ∷ (if same topic [] then nil else bulk topic) ∷ int (pos count) ∷ []))

-- What `forward` writes of a message; a published payload is no nil slice.
unfoldable pub forwarded : Message → Reply
forwarded msg = array (replies (bulk (text "message") ∷ bulk msg.topic ∷ bulk msg.payload ∷ []))

module _ {p : Policy} where
  -- The loop of `doSubscribe`; a subscription has a channel of 256 messages.
  unfoldable pub subscribe_topic : Bytes → Server p → Conn p → Server p × Conn p
  subscribe_topic topic s c = elim (lookup topic c.subs) as (λ _. Server p × Conn p) [
    | some i ↦ (s, c)
    | none ↦
        let (b, i) = PubSub.subscribe topic 256 s.broker in
        (record s { broker = b }, record c { subs = insert topic i c.subs })
  ]

  unfoldable pub subscribe_all : List Bytes → Server p → Conn p → Server p × Conn p × List Reply
  unfolding subscribe_topic confirm
  subscribe_all [] s c = (s, c, [])
  subscribe_all (topic ∷ topics) s c =
      let (s', c') = subscribe_topic topic s c in
      let rest = subscribe_all topics s' c' in
      (rest.0, rest.1, confirm (text "subscribe") topic (length c'.subs) ∷ rest.2)

  unfoldable pub do_subscribe : List Bytes → Server p → Conn p → Server p × Conn p × List Reply
  unfolding subscribe_all
  do_subscribe (_ ∷ t ∷ ts) s c = subscribe_all (t ∷ ts) s c
  do_subscribe _ s c = (s, c, error (text "ERR wrong number of arguments for 'subscribe'") ∷ [])

  unfoldable pub unsubscribe_topic : Bytes → Server p → Conn p → Server p × Conn p
  unsubscribe_topic topic s c = elim (lookup topic c.subs) as (λ _. Server p × Conn p) [
    | none ↦ (s, c)
    | some i ↦
        (record s { broker = PubSub.close i s.broker }, record c { subs = erase topic c.subs })
  ]

  unfoldable pub unsubscribe_all : List Bytes → Server p → Conn p → Server p × Conn p × List Reply
  unfolding unsubscribe_topic confirm
  unsubscribe_all [] s c = (s, c, [])
  unsubscribe_all (topic ∷ topics) s c =
      let (s', c') = unsubscribe_topic topic s c in
      let rest = unsubscribe_all topics s' c' in
      (rest.0, rest.1, confirm (text "unsubscribe") topic (length c'.subs) ∷ rest.2)

  abbrev topics_of : List Bytes → Conn p → List Bytes
  topics_of (_ ∷ t ∷ ts) c = t ∷ ts
  topics_of _ c = map (λ (b : Bytes × ℕ). b.0) c.subs

  unfoldable pub do_unsubscribe : List Bytes → Server p → Conn p → Server p × Conn p × List Reply
  unfolding unsubscribe_all
  do_unsubscribe args s c = elim (topics_of args c) as (λ _. Server p × Conn p × List Reply) [
    | [] ↦ (s, c, confirm (text "unsubscribe") [] 0 ∷ [])
    | t ∷ ts ↦ unsubscribe_all (t ∷ ts) s c
  ]

  -- `none` is the panic of `Publish`.
  unfoldable pub cmd_publish : List Bytes → Server p → Option (Server p × Reply)
  cmd_publish (_ ∷ topic ∷ payload ∷ []) s =
      elim (PubSub.publish topic payload s.broker) as (λ _. Option (Server p × Reply)) [
        | none ↦ none
        | some (b, n) ↦ some (record s { broker = b }, int (pos n))
      ]
  cmd_publish _ s = some (s, error (text "ERR wrong number of arguments for 'publish'"))

  -- `closeSubs`, of the topics in turn.
  unfoldable pub close_subs : Server p → Conn p → Server p × Conn p
  unfolding unsubscribe_all
  close_subs s c = let r = unsubscribe_all (map (λ (b : Bytes × ℕ). b.0) c.subs) s c in (r.0, r.1)
