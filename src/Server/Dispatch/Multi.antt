-- ===== src/Server/Dispatch/Multi.antt =====
-- A transaction of commands of the table, against the same commands sent on their own.
use dist_cache.Base.{
  ◌≡◌, refl, ap, sym, ◌∙◌, subst, Bool, Bool-cases, inl, inr, true, false, not, ◌&&◌, ◌||◌, Option,
  none, some, List, [], ◌∷◌, ◌++◌, Bytes, All, map, same, Bytes-discrete, ℕ_discrete, bytes_eq,
  if◌then◌else◌, arith,
}
use dist_cache.Base.Assoc.{lookup}
use dist_cache.Base.Text.{text}
use dist_cache.Eviction.Policy.{Policy}
use dist_cache.Server.Conn.{Server, Conn}
use dist_cache.Server.Dispatch.{
  answered, any_of, not_queued, needs_auth, handle, queue_command, run_command, dispatch, serve,
}
use dist_cache.Server.Dispatch.Serve.{same→eq, serve-go, dispatch_named-runs, dispatch_named-queues}
use dist_cache.Server.Handlers.{Handler, handlers, handler_table}
use dist_cache.Server.Reply.{Reply, simple, nil}
use dist_cache.Server.World.{Env, World, to_upper}
use dist_cache.Txn
use dist_cache.Txn.{Tx}
use mathlib.Core.List.{append_assoc, append-nil}

-- The commands that `run_command` deals with itself.
abbrev special : List Bytes
special =
    text "QUIT"
    ∷ text "AUTH"
    ∷ text "MULTI"
    ∷ text "EXEC"
    ∷ text "DISCARD"
    ∷ text "WATCH"
    ∷ text "UNWATCH"
    ∷ text "SUBSCRIBE"
    ∷ text "UNSUBSCRIBE"
    ∷ text "PUBLISH"
    ∷ text "LOCK"
    ∷ text "UNLOCK"
    ∷ text "RENEWLOCK"
    ∷ text "INFO"
    ∷ text "CLUSTER"
    ∷ text "COMMAND"
    ∷ []

module _ (e : Env) (p : Policy) where
  -- A command whose name is in the table.
  unfoldable pub IsHandled : List Bytes → Type 0
  IsHandled [] = ⊥
  IsHandled (name ∷ args) = (h : Handler p) × (handlers e {p = p} (to_upper e name) ≡ some h)

  unfoldable pub as_command : List Bytes → World p → World p × Reply
  as_command [] = λ w. (w, nil)
  as_command (name ∷ args) =
      elim (handlers e {p = p} (to_upper e name)) as (λ _. World p → World p × Reply) [
        | none ↦ λ w. (w, nil)
        | some h ↦ h (name ∷ args)
      ]

  as_command-some :
      (name : Bytes) (args : List Bytes) (h : Handler p)
      → handlers e {p = p} (to_upper e name) ≡ some h
      → as_command (name ∷ args) ≡ h (name ∷ args)
  unfolding as_command
  as_command-some name args h f = rw (as_command, f) refl

  NoneHandled : List Bytes → Type 0
  NoneHandled names = All (λ n. handlers e {p = p} n ≡ none) names

  none_handled :
      (names : List Bytes) (k : Bytes)
      → NoneHandled names
      → any_of k names ≡ true
      → handlers e {p = p} k ≡ none
  unfolding NoneHandled
  none_handled [] k h a = absurd (ground (arith, a))
  none_handled (n ∷ names) k h a = elim (Bool-cases (same k n)) [
    | inl s ↦ ap (λ x. handlers e {p = p} x) (same→eq k n s) ∙ h.0
    | inr d ↦ none_handled names k h.1 (ground (arith, a, d))
  ]

  special-NoneHandled : NoneHandled special
  unfolding NoneHandled handlers Bytes-discrete ℕ_discrete lookup handler_table
  special-NoneHandled = (
    refl,
    (
      refl,
      (
        refl,
        (
          refl,
          (
            refl,
            (
              refl,
              (refl, (refl, (refl, (refl, (refl, (refl, (refl, (refl, (refl, (refl, tt)))))))))),
            ),
          ),
        ),
      ),
    ),
  )

  not_queued-NoneHandled : NoneHandled not_queued
  unfolding NoneHandled handlers Bytes-discrete ℕ_discrete lookup handler_table
  not_queued-NoneHandled = (refl, (refl, (refl, (refl, (refl, (refl, tt))))))

  handled_elsewhere :
      (names : List Bytes) (k : Bytes) (h : Handler p)
      → NoneHandled names
      → handlers e {p = p} k ≡ some h
      → any_of k names ≡ false
  handled_elsewhere names k h n e' = elim (Bool-cases (any_of k names)) [
    | inr f ↦ f
    | inl t ↦ absurd (ground (arith, e', none_handled names k n t))
  ]

  run_command-handle :
      (k : Bytes) (args : List Bytes) (s : Server p) (c : Conn p)
      → any_of k special ≡ false
      → run_command e k args s c ≡ handle e k args s c
  unfolding run_command
  run_command-handle k args s c h = ground (arith, h)

  handle-command :
      (name : Bytes) (args : List Bytes) (h : Handler p) (s : Server p) (c : Conn p)
      → handlers e {p = p} (to_upper e name) ≡ some h
      → handle e (to_upper e name) (name ∷ args) s c
        ≡ answered
            (record s { world = (as_command (name ∷ args) s.world).0 })
            c
            ((as_command (name ∷ args) s.world).1 ∷ [])
            true
  unfolding handle as_command
  handle-command name args h s c f = rw (handle, as_command, f) refl

  -- The client may send any command.
  unfoldable pub IsCleared : Server p → Conn p → Type 0
  IsCleared s c = same s.password [] || c.authed ≡ true

  pub needs_auth-cleared :
      (k : Bytes) (s : Server p) (c : Conn p) → IsCleared s c → needs_auth k s c ≡ false
  unfolding IsCleared needs_auth
  needs_auth-cleared k s c h = ground (arith, h)

  dispatch-command :
      (args : List Bytes) (s : Server p) (c : Conn p)
      → IsCleared s c
      → c.in_multi ≡ false
      → IsHandled args
      → dispatch e args s c
        ≡ answered
            (record s { world = (as_command args s.world).0 })
            c
            ((as_command args s.world).1 ∷ [])
            true
  unfolding dispatch IsHandled
  dispatch-command [] s c ok' plain h = absurd h
  dispatch-command (name ∷ args) s c ok' plain (h, f) =
      dispatch_named-runs e (to_upper e name) (name ∷ args) s c
        (needs_auth-cleared (to_upper e name) s c ok')
        (ap (λ b. b && not (any_of (to_upper e name) not_queued)) plain)
      ∙ run_command-handle (to_upper e name) (name ∷ args) s c
          (handled_elsewhere special (to_upper e name) h special-NoneHandled f)
      ∙ handle-command name args h s c f

  abbrev pub run_all : List (List Bytes) → World p → World p × List Reply
  run_all commands w = Txn.run_queued (World p) Reply (map as_command commands) w

  -- Sent on their own.
  pub serve-direct :
      (commands : List (List Bytes)) (s : Server p) (c : Conn p)
      → IsCleared s c
      → c.in_multi ≡ false
      → All IsHandled commands
      → serve e commands s c
        ≡ answered
            (record s { world = (run_all commands s.world).0 })
            c
            (run_all commands s.world).1
            true
  unfolding serve Txn.run_queued IsCleared
  serve-direct [] s c ok' plain h = refl
  serve-direct (args ∷ commands) s c ok' plain h =
      serve-go e args commands s _ _ c c c _ _ true (dispatch-command args s c ok' plain h.0)
        (serve-direct commands (record s { world = (as_command args s.world).0 }) c ok' plain h.1)

  -- The connection in MULTI with a transaction.
  abbrev pub in_tx : Tx (World p) Reply → Conn p → Conn p
  in_tx tx c = record c { tx = some tx; in_multi = true }

  abbrev pub more_queued : List (List Bytes) → Tx (World p) Reply → Tx (World p) Reply
  more_queued commands tx = record tx { queued = tx.queued ++ map as_command commands }

  abbrev pub queued_replies : List (List Bytes) → List Reply
  queued_replies [] = []
  queued_replies (args ∷ commands) = simple (text "QUEUED") ∷ queued_replies commands

  queue-some :
      (cmd : World p → World p × Reply) (tx : Tx (World p) Reply)
      → tx.in_multi ≡ true
      → Txn.queue (World p) Reply cmd tx ≡ some (record tx { queued = tx.queued ++ cmd ∷ [] })
  unfolding Txn.queue
  queue-some cmd tx t =
      ap (λ b. if not b then none else some (record tx { queued = tx.queued ++ cmd ∷ [] })) t

  queue_command-queued :
      (name : Bytes) (args : List Bytes) (h : Handler p) (tx : Tx (World p) Reply) (s : Server p)
      (c : Conn p)
      → tx.in_multi ≡ true
      → handlers e {p = p} (to_upper e name) ≡ some h
      → queue_command e (to_upper e name) (name ∷ args) s (in_tx tx c)
        ≡ answered s
            (in_tx (record tx { queued = tx.queued ++ h (name ∷ args) ∷ [] }) c)
            (simple (text "QUEUED") ∷ [])
            true
  unfolding queue_command
  queue_command-queued name args h tx s c t f =
      rw (queue_command, f)
        (ap
          (λ (o : Option (Tx (World p) Reply)).
            answered s (elim o as (λ _. Conn p) [ none ↦ in_tx tx c | some tx' ↦ in_tx tx' c ])
              (simple (text "QUEUED") ∷ []) true)
          (queue-some (h (name ∷ args)) tx t))

  dispatch-queued :
      (args : List Bytes) (tx : Tx (World p) Reply) (s : Server p) (c : Conn p)
      → IsCleared s c
      → tx.in_multi ≡ true
      → IsHandled args
      → dispatch e args s (in_tx tx c)
        ≡ answered s
            (in_tx (record tx { queued = tx.queued ++ as_command args ∷ [] }) c)
            (simple (text "QUEUED") ∷ [])
            true
  unfolding dispatch IsHandled IsCleared
  dispatch-queued [] tx s c ok' t h = absurd h
  dispatch-queued (name ∷ args) tx s c ok' t (h, f) =
      dispatch_named-queues e (to_upper e name) (name ∷ args) s (in_tx tx c)
        (needs_auth-cleared (to_upper e name) s (in_tx tx c) ok')
        (ap not (handled_elsewhere not_queued (to_upper e name) h not_queued-NoneHandled f))
      ∙ queue_command-queued name args h tx s c t f
      ∙ ap
          (λ (cmd : World p → World p × Reply).
            answered s (in_tx (record tx { queued = tx.queued ++ cmd ∷ [] }) c)
              (simple (text "QUEUED") ∷ []) true)
          (sym (as_command-some name args h f))

  -- Sent in MULTI, with what follows.
  pub serve-queued :
      (commands rest : List (List Bytes)) (tx : Tx (World p) Reply) (s s' : Server p)
      (c c' : Conn p) (rs : List Reply) (more : Bool)
      → IsCleared s c
      → tx.in_multi ≡ true
      → All IsHandled commands
      → serve e rest s (in_tx (more_queued commands tx) c) ≡ answered s' c' rs more
      → serve e (commands ++ rest) s (in_tx tx c)
        ≡ answered s' c' (queued_replies commands ++ rs) more
  serve-queued [] rest tx s s' c c' rs more ok' t h k =
      subst
        (λ (q : List (World p → World p × Reply)).
          serve e rest s (in_tx (record tx { queued = q }) c) ≡ answered s' c' rs more)
        (append-nil tx.queued) k
  serve-queued (args ∷ commands) rest tx s s' c c' rs more ok' t h k =
      serve-go e args (commands ++ rest) s s s' (in_tx tx c) (in_tx next c) c' _
        (queued_replies commands ++ rs) more (dispatch-queued args tx s c ok' t h.0)
        (serve-queued commands rest next s s' c c' rs more ok' t h.1 (
          subst
            (λ (q : List (World p → World p × Reply)).
              serve e rest s (in_tx (record tx { queued = q }) c) ≡ answered s' c' rs more)
            (sym (append_assoc tx.queued (as_command args ∷ []) (map as_command commands))) k))
    where
      next : Tx (World p) Reply
      next = record tx { queued = tx.queued ++ as_command args ∷ [] }
