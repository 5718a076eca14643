-- ===== src/Server/Conn.antt =====
-- internal/server: the server and one of its connections, and the commands that stand outside the
-- table of handlers. The random tokens that are still to come are a stream, as the clock is.
use dist_cache.Base.{
  ℕ, suc, Bool, true, false, not, Option, none, some, List, [], ◌∷◌, Bytes, same, bytes_eq, nat_eq,
  if◌then◌else◌,
}
use dist_cache.Base.Assoc.{Assoc}
use dist_cache.Base.Decimal.{parse_int}
use dist_cache.Base.Int64.{ℤ, pos, lez}
use dist_cache.Base.Text.{text}
use dist_cache.Cluster.{Registry}
use dist_cache.Eviction.Policy.{Policy}
use dist_cache.Locks
use dist_cache.Locks.{Manager}
use dist_cache.PubSub.{Broker}
use dist_cache.Server.Handlers.{ok, one_or_zero}
use dist_cache.Server.Reply.{Reply, replies, error, bulk, nil, array, nil_array}
use dist_cache.Server.World.{World, times, second, now, after}
use dist_cache.Txn
use dist_cache.Txn.{Coordinator, Tx, Executed, results, no_multi, aborted}

-- What the commands INFO and CLUSTER read of the parts that are attached to the server: a
-- replica's primary, whether it is synced and its last event; a primary's replicas with their last
-- sent and acknowledged events; the registry of the cluster.
pub record Attached : Type 0 where
  pub replica : Option (Bytes × Bool × ℕ)
  pub primary : Option (List (Bytes × ℕ × ℕ))
  pub registry : Option Registry

pub record Server (p : Policy) : Type 0 where
  pub password : Bytes
  pub node_id : Bytes
  pub attached : Attached
  pub world : World p
  pub locks : Manager
  pub tokens : ℕ → Bytes
  pub co : Coordinator
  pub broker : Broker

pub record Conn (p : Policy) : Type 0 where
  pub remote_addr : Bytes
  pub local_addr : Bytes
  pub authed : Bool
  pub tx : Option (Tx (World p) Reply)
  pub in_multi : Bool
  pub subs : Assoc Bytes ℕ

abbrev pub new_conn : {p : Policy} → Bytes → Bytes → Conn p
new_conn remote here = record {
  remote_addr = remote;
  local_addr = here;
  authed = false;
  tx = none;
  in_multi = false;
  subs = [];
}

module _ {p : Policy} where
  -- The transaction; a new one where there is none. In MULTI there always is one.
  abbrev pub tx_of : Conn p → Tx (World p) Reply
  tx_of c = elim c.tx as (λ _. Tx (World p) Reply) [
    | none ↦ Txn.begin (World p) Reply
    | some tx ↦ tx
  ]

  unfoldable pub cmd_auth : List Bytes → Server p → Conn p → Conn p × Reply
  cmd_auth (_ ∷ given ∷ []) s c =
      if same s.password []
      then (c, error (text "ERR Client sent AUTH, but no password is set"))
      else if not (same given s.password)
      then (c, error (text "WRONGPASS invalid username-password pair"))
      else (record c { authed = true }, ok)
  cmd_auth _ s c = (c, error (text "ERR wrong number of arguments for 'auth'"))

  -- The error of `Multi` is dropped.
  unfoldable pub begin_multi : Conn p → Conn p × Reply
  begin_multi c = if c.in_multi then (c, error (text "ERR MULTI calls can not be nested")) else (
    record c {
      tx = elim (Txn.multi (World p) Reply (tx_of c)) as (λ _. Option (Tx (World p) Reply)) [
        | none ↦ some (tx_of c)
        | some tx ↦ some tx
      ];
      in_multi = true;
    },
    ok,
  )

  abbrev pub executed_reply : Executed (World p) Reply → Reply
  executed_reply (results rs) = array (replies rs)
  executed_reply no_multi = error (text "ERR txn: EXEC/queue without MULTI")
  executed_reply aborted = nil_array

  unfoldable pub exec_tx : Server p → Conn p → Server p × Conn p × Reply
  exec_tx s c =
      if not c.in_multi
      then (s, c, error (text "ERR EXEC without MULTI"))
      else (let (tx, co, w, r) = Txn.exec (World p) Reply (tx_of c) s.co s.world in
          (
            record s { co = co; world = w },
            record c { tx = none; in_multi = false },
            executed_reply r,
          ))

  unfoldable pub discard : Server p → Conn p → Server p × Conn p × Reply
  discard s c = elim c.tx as (λ _. Server p × Conn p × Reply) [
    | none ↦ (s, c, error (text "ERR DISCARD without MULTI"))
    | some tx ↦ (
      record s { co = (Txn.discard (World p) Reply tx s.co).1 },
      record c { tx = none; in_multi = false },
      ok,
    )
  ]

  -- The error of `Watch` is dropped.
  unfoldable pub watch_keys : List Bytes → Server p → Conn p → Server p × Conn p
  watch_keys ks s c =
      elim (Txn.watch (World p) Reply ks (tx_of c) s.co) as (λ _. Server p × Conn p) [
        | none ↦ (s, record c { tx = some (tx_of c) })
        | some (tx, co) ↦ (record s { co = co }, record c { tx = some tx })
      ]

  unfoldable pub watch : List Bytes → Server p → Conn p → Server p × Conn p × Reply
  unfolding watch_keys
  watch (_ ∷ k ∷ ks) s c =
      if c.in_multi
      then (s, c, error (text "ERR WATCH inside MULTI is not allowed"))
      else (let r = watch_keys (k ∷ ks) s c in (r.0, r.1, ok))
  watch _ s c =
      if c.in_multi
      then (s, c, error (text "ERR WATCH inside MULTI is not allowed"))
      else (s, c, error (text "ERR wrong number of arguments for 'watch'"))

  unfoldable pub unwatch : Server p → Conn p → Server p × Conn p × Reply
  unwatch s c = elim c.tx as (λ _. Server p × Conn p × Reply) [
    | none ↦ (s, c, ok)
    | some tx ↦
        if c.in_multi
        then (s, c, ok)
        else (record s { co = (Txn.discard (World p) Reply tx s.co).1 }, record c { tx = none }, ok)
  ]

  -- The owner of a lock is the fourth argument, or the address of the client.
  abbrev owner_of : List Bytes → Conn p → Bytes
  owner_of [] c = c.remote_addr
  owner_of (owner ∷ _) c = owner

  unfoldable pub acquire_lock : Bytes → Bytes → ℤ → Server p → Server p × Reply
  acquire_lock key owner secs s =
      let (m, tok, got) =
        Locks.acquire key owner (times secs second) (now s.world) (s.tokens 0) s.locks in
      (
        record s { locks = m; world = after s.world.cache s.world; tokens = λ n. s.tokens (suc n) },
        if got then bulk tok else nil,
      )

  unfoldable pub cmd_lock : List Bytes → Server p → Conn p → Server p × Reply
  unfolding acquire_lock
  cmd_lock (_ ∷ key ∷ number ∷ rest) s c = elim (parse_int number) as (λ _. Server p × Reply) [
    | none ↦ (s, error (text "ERR invalid ttl"))
    | some secs ↦
        if lez secs (pos 0)
        then (s, error (text "ERR invalid ttl"))
        else acquire_lock key (owner_of rest c) secs s
  ]
  cmd_lock _ s c = (s, error (text "ERR usage: LOCK key ttlSeconds [owner]"))

  unfoldable pub cmd_unlock : List Bytes → Server p → Server p × Reply
  cmd_unlock (_ ∷ key ∷ token ∷ []) s =
      let (m, done) = Locks.release key token s.locks in (record s { locks = m }, one_or_zero done)
  cmd_unlock _ s = (s, error (text "ERR usage: UNLOCK key token"))

  unfoldable pub renew_lock : Bytes → Bytes → ℤ → Server p → Server p × Reply
  renew_lock key token secs s =
      let (m, done) = Locks.renew key token (times secs second) (now s.world) s.locks in
      (record s { locks = m; world = after s.world.cache s.world }, one_or_zero done)

  unfoldable pub cmd_renew_lock : List Bytes → Server p → Server p × Reply
  unfolding renew_lock
  cmd_renew_lock (_ ∷ key ∷ token ∷ number ∷ []) s =
      elim (parse_int number) as (λ _. Server p × Reply) [
        | none ↦ (s, error (text "ERR invalid ttl"))
        | some secs ↦
            if lez secs (pos 0)
            then (s, error (text "ERR invalid ttl"))
            else renew_lock key token secs s
      ]
  cmd_renew_lock _ s = (s, error (text "ERR usage: RENEWLOCK key token ttlSeconds"))
