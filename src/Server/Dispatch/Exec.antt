-- ===== src/Server/Dispatch/Exec.antt =====
-- EXEC gives what its commands give on their own.
use dist_cache.Base.{
  ◌≡◌, refl, ap, sym, ◌∙◌, subst, Bool, true, false, not, Option, none, List, [], ◌∷◌, ◌++◌, Bytes,
  All, Bytes-discrete, ℕ_discrete, bytes_eq,
}
use dist_cache.Base.Text.{text}
use dist_cache.Eviction.Policy.{Policy}
use dist_cache.Server.Conn.{Server, Conn, begin_multi, exec_tx}
use dist_cache.Server.Dispatch.{answered, any_of, not_queued, run_command, dispatch, serve}
use dist_cache.Server.Dispatch.Multi.{
  IsHandled, IsCleared, run_all, in_tx, more_queued, queued_replies, needs_auth-cleared,
  serve-direct, serve-queued,
}
use dist_cache.Server.Dispatch.Serve.{serve-go, dispatch_named-runs}
use dist_cache.Server.Handlers.{ok}
use dist_cache.Server.Reply.{Reply, replies, array}
use dist_cache.Server.World.{Env, World, to_upper}
use dist_cache.Txn
use dist_cache.Txn.{Tx}

abbrev pub multi_args : List Bytes
multi_args = text "MULTI" ∷ []

abbrev pub exec_args : List Bytes
exec_args = text "EXEC" ∷ []

module _ (e : Env) {p : Policy} where
  -- Outside MULTI, without a transaction.
  abbrev idle : Conn p → Conn p
  idle c = record c { tx = none; in_multi = false }

  abbrev started : Tx (World p) Reply
  started = record { watched = []; queued = []; in_multi = true }

  run_command-multi :
      (s : Server p) (c : Conn p)
      → run_command e (text "MULTI") multi_args s (idle c)
        ≡ answered s (in_tx e p started c) (ok ∷ []) true
  unfolding run_command begin_multi Txn.multi Txn.begin Bytes-discrete ℕ_discrete
  run_command-multi s c = refl

  dispatch-multi :
      (s : Server p) (c : Conn p)
      → IsCleared e p s c
      → dispatch e multi_args s (idle c) ≡ answered s (in_tx e p started c) (ok ∷ []) true
  unfolding dispatch to_upper IsCleared
  dispatch-multi s c ok' =
      dispatch_named-runs e (text "MULTI") multi_args s (idle c)
        (needs_auth-cleared e p (text "MULTI") s (idle c) ok') refl
      ∙ run_command-multi s c

  run_command-exec :
      (commands : List (List Bytes)) (s : Server p) (c : Conn p)
      → run_command e (text "EXEC") exec_args s (in_tx e p (more_queued e p commands started) c)
        ≡ answered
            (record s { world = (run_all e p commands s.world).0 })
            (idle c)
            (array (replies (run_all e p commands s.world).1) ∷ [])
            true
  unfolding run_command exec_tx Txn.exec Txn.changed Txn.release Txn.unwatch Bytes-discrete
      ℕ_discrete
  run_command-exec commands s c = refl

  dispatch-exec :
      (commands : List (List Bytes)) (s : Server p) (c : Conn p)
      → IsCleared e p s c
      → dispatch e exec_args s (in_tx e p (more_queued e p commands started) c)
        ≡ answered
            (record s { world = (run_all e p commands s.world).0 })
            (idle c)
            (array (replies (run_all e p commands s.world).1) ∷ [])
            true
  unfolding dispatch to_upper IsCleared
  dispatch-exec commands s c ok' =
      dispatch_named-runs e (text "EXEC") exec_args s
        (in_tx e p (more_queued e p commands started) c)
        (needs_auth-cleared e p (text "EXEC") s (in_tx e p (more_queued e p commands started) c)
          ok')
        exempt
      ∙ run_command-exec commands s c
    where
      exempt : not (any_of (text "EXEC") not_queued) ≡ false
      exempt = unfold Bytes-discrete ℕ_discrete in refl

  -- A client that may send any command, on a connection without a transaction, and commands of the
  -- table, on whatever keys: sent on their own they do not crash, and sent between MULTI and EXEC
  -- they leave the server as they do on their own, with the clock's readings at the same calls;
  -- each of them is answered QUEUED, and EXEC with the replies that they have on their own, in
  -- order; the connection is outside MULTI again.
  pub serve-multi :
      (commands : List (List Bytes)) (s : Server p) (c : Conn p)
      → IsCleared e p s c
      → c.tx ≡ none
      → c.in_multi ≡ false
      → All (IsHandled e p) commands
      → (s' : Server p) × (rs : List Reply) × (serve e commands s c ≡ answered s' c rs true)
        × (serve e (multi_args ∷ (commands ++ exec_args ∷ [])) s c
            ≡ answered s' c (ok ∷ (queued_replies e p commands ++ array (replies rs) ∷ [])) true)
  unfolding serve
  serve-multi commands s c ok' alone plain h = (
    done,
    (run_all e p commands s.world).1,
    serve-direct e p commands s c ok' plain h,
    subst (λ d. serve e (multi_args ∷ (commands ++ exec_args ∷ [])) s d ≡ answered done d sent true)
        same_conn
        (serve-go e multi_args (commands ++ exec_args ∷ []) s s done (idle c) (in_tx e p started c)
          (idle c) (ok ∷ []) _ true (dispatch-multi s c ok')
          (serve-queued e p commands (exec_args ∷ []) started s done c (idle c) last true ok' refl h
            (serve-go e exec_args [] s done done _ (idle c) (idle c) last [] true
              (dispatch-exec commands s c ok') refl))),
  )
    where
      done : Server p
      done = record s { world = (run_all e p commands s.world).0 }

      last : List Reply
      last = array (replies (run_all e p commands s.world).1) ∷ []

      sent : List Reply
      sent = ok ∷ (queued_replies e p commands ++ last)

      same_conn : idle c ≡ c
      same_conn =
          ap (λ (t : Option (Tx (World p) Reply)). record c { tx = t; in_multi = false })
            (sym alone)
          ∙ ap (λ (b : Bool). record c { in_multi = b }) (sym plain)
