-- ===== src/Server/Dispatch.antt =====
-- commands.go: `dispatch`, and the loop of server.go over a connection's commands.
pub mod Serve
pub mod Auth
pub mod Multi
pub mod Exec
use dist_cache.Base.{
  ℕ, Bool, true, false, not, ◌&&◌, ◌||◌, Option, none, some, List, [], ◌∷◌, ◌++◌, Bytes, same,
  bytes_eq, if◌then◌else◌,
}
use dist_cache.Base.Text.{text}
use dist_cache.Eviction.Policy.{Policy}
use dist_cache.Server.Conn.{
  Server, Conn, tx_of, cmd_auth, begin_multi, exec_tx, discard, watch, unwatch, cmd_lock,
  cmd_unlock, cmd_renew_lock,
}
use dist_cache.Server.Handlers.{Handler, handlers, ok}
use dist_cache.Server.Reply.{Reply, Replies, replies, simple, error, array}
use dist_cache.Server.Reports.{cmd_info, cmd_cluster}
use dist_cache.Server.Topics.{do_subscribe, do_unsubscribe, close_subs, cmd_publish}
use dist_cache.Server.World.{Env, World, to_upper}
use dist_cache.Txn

-- The replies and whether the connection goes on; or the panic that ends the server.
pub data Outcome (p : Policy) : Type 0 where
  answered : Server p → Conn p → List Reply → Bool → Outcome p
  crashed : Outcome p

abbrev pub any_of : Bytes → List Bytes → Bool
any_of name [] = false
any_of name (n ∷ ns) = same name n || any_of name ns

abbrev pub before_auth : List Bytes
before_auth = text "AUTH" ∷ text "QUIT" ∷ text "PING" ∷ []

abbrev pub not_queued : List Bytes
not_queued =
    text "EXEC" ∷ text "DISCARD" ∷ text "MULTI" ∷ text "WATCH" ∷ text "RESET" ∷ text "QUIT" ∷ []

module _ {p : Policy} where
  abbrev reply_with : Server p × Conn p × Reply → Outcome p
  reply_with r = answered r.0 r.1 (r.2 ∷ []) true

  abbrev reply_all : Server p × Conn p × List Reply → Outcome p
  reply_all r = answered r.0 r.1 r.2 true

  -- The password is asked for before every command but these three.
  unfoldable pub needs_auth : Bytes → Server p → Conn p → Bool
  needs_auth cmd s c = not (same s.password []) && (not c.authed && not (any_of cmd before_auth))

module _ (e : Env) {p : Policy} where
  -- In MULTI: the handler is queued with its arguments. `Queue` fails without a transaction.
  unfoldable pub queue_command : Bytes → List Bytes → Server p → Conn p → Outcome p
  unfolding handlers
  queue_command cmd args s c = elim (handlers e {p = p} cmd) as (λ _. Outcome p) [
    | none ↦
        answered s c (error (text "ERR command '" ++ (cmd ++ text "' not allowed in MULTI")) ∷ [])
          true
    | some h ↦ elim c.tx as (λ _. Outcome p) [
      | none ↦ crashed
      | some tx ↦
          let c' = (elim (Txn.queue (World p) Reply (h args) tx) as (λ _. Conn p) [
            | none ↦ c
            | some tx' ↦ record c { tx = some tx' }
          ]) in
          answered s c' (simple (text "QUEUED") ∷ []) true
    ]
  ]

  unfoldable pub handle : Bytes → List Bytes → Server p → Conn p → Outcome p
  unfolding handlers
  handle cmd args s c = elim (handlers e {p = p} cmd) as (λ _. Outcome p) [
    | none ↦ answered s c (error (text "ERR unknown command '" ++ (cmd ++ text "'")) ∷ []) true
    | some h ↦ let r = h args s.world in answered (record s { world = r.0 }) c (r.1 ∷ []) true
  ]

  unfoldable pub publish_command : List Bytes → Server p → Conn p → Outcome p
  unfolding cmd_publish
  publish_command args s c = elim (cmd_publish args s) as (λ _. Outcome p) [
    | none ↦ crashed
    | some (s', r) ↦ answered s' c (r ∷ []) true
  ]

  -- The second `switch` of `dispatch`.
  unfoldable pub run_command : Bytes → List Bytes → Server p → Conn p → Outcome p
  unfolding handle publish_command
  run_command cmd args s c =
      if same cmd (text "QUIT")
      then answered s c (ok ∷ []) false
      else if same cmd (text "AUTH")
      then (let r = cmd_auth args s c in reply_with (s, r.0, r.1))
      else if same cmd (text "MULTI")
      then (let r = begin_multi c in reply_with (s, r.0, r.1))
      else if same cmd (text "EXEC")
      then reply_with (exec_tx s c)
      else if same cmd (text "DISCARD")
      then reply_with (discard s c)
      else if same cmd (text "WATCH")
      then reply_with (watch args s c)
      else if same cmd (text "UNWATCH")
      then reply_with (unwatch s c)
      else if same cmd (text "SUBSCRIBE")
      then reply_all (do_subscribe args s c)
      else if same cmd (text "UNSUBSCRIBE")
      then reply_all (do_unsubscribe args s c)
      else if same cmd (text "PUBLISH")
      then publish_command args s c
      else if same cmd (text "LOCK")
      then (let r = cmd_lock args s c in reply_with (r.0, c, r.1))
      else if same cmd (text "UNLOCK")
      then (let r = cmd_unlock args s in reply_with (r.0, c, r.1))
      else if same cmd (text "RENEWLOCK")
      then (let r = cmd_renew_lock args s in reply_with (r.0, c, r.1))
      else if same cmd (text "INFO")
      then reply_with (s, c, cmd_info e s)
      else if same cmd (text "CLUSTER")
      then reply_with (s, c, cmd_cluster e args s c)
      else if same cmd (text "COMMAND")
      then reply_with (s, c, array (replies []))
      else handle cmd args s c

  unfoldable pub dispatch_named : Bytes → List Bytes → Server p → Conn p → Outcome p
  unfolding needs_auth queue_command run_command
  dispatch_named cmd args s c =
      if needs_auth cmd s c
      then answered s c (error (text "NOAUTH Authentication required.") ∷ []) true
      else if c.in_multi && not (any_of cmd not_queued)
      then queue_command cmd args s c
      else run_command cmd args s c

  -- `serve` skips a command without words.
  unfoldable pub dispatch : List Bytes → Server p → Conn p → Outcome p
  unfolding to_upper dispatch_named
  dispatch [] s c = answered s c [] true
  dispatch (name ∷ args) s c = dispatch_named (to_upper e name) (name ∷ args) s c

  -- The loop of `conn.serve` over the commands of a client, with the replies so far in order. What
  -- is left is the state while the client is still there.
  unfoldable pub serve : List (List Bytes) → Server p → Conn p → Outcome p
  unfolding dispatch
  serve [] s c = answered s c [] true
  serve (args ∷ rest) s c = elim (dispatch args s c) as (λ _. Outcome p) [
    | crashed ↦ crashed
    | answered s' c' rs false ↦ answered s' c' rs false
    | answered s' c' rs true ↦ elim (serve rest s' c') as (λ _. Outcome p) [
      | crashed ↦ crashed
      | answered s'' c'' rs' more ↦ answered s'' c'' (rs ++ rs') more
    ]
  ]

  -- The whole of `conn.serve`, when the connection fails or ends behind these commands: `closeSubs`
  -- is deferred.
  unfoldable pub serve_to_end : List (List Bytes) → Server p → Conn p → Outcome p
  unfolding serve close_subs
  serve_to_end commands s c = elim (serve commands s c) as (λ _. Outcome p) [
    | crashed ↦ crashed
    | answered s' c' rs _ ↦ let (s'', c'') = close_subs s' c' in answered s'' c'' rs false
  ]
