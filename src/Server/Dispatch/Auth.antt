-- ===== src/Server/Dispatch/Auth.antt =====
-- What a client can do before it has given the password.
use dist_cache.Base.{
  ◌≡◌, refl, ap, sym, ◌∙◌, subst, Bool, Bool-cases, inl, inr, true, false, not, ◌&&◌, List, [], ◌∷◌,
  ◌++◌, Bytes, All, same, Bytes-discrete, ℕ_discrete, bytes_eq, if◌then◌else◌, arith,
}
use dist_cache.Base.Assoc.{lookup}
use dist_cache.Base.Text.{text}
use dist_cache.Eviction.Policy.{Policy}
use dist_cache.Server.Conn.{Server, Conn, cmd_auth}
use dist_cache.Server.Dispatch.{
  Outcome, answered, any_of, before_auth, not_queued, needs_auth, queue_command, handle,
  run_command, dispatch_named, dispatch, serve,
}
use dist_cache.Server.Dispatch.Serve.{same→eq, serve-stop, serve-go, dispatch_named-runs}
use dist_cache.Server.Handlers.{handlers, handler_table, cmd_ping, ok}
use dist_cache.Server.Reply.{Reply, error}
use dist_cache.Server.World.{Env, to_upper}

-- An AUTH with the right password.
unfoldable pub gives_password : Env → Bytes → List Bytes → Bool
gives_password e password (name ∷ given ∷ []) =
    same (to_upper e name) (text "AUTH") && same given password
gives_password e password _ = false

-- The server and the connection are as they were.
pub Unchanged : {p : Policy} → Server p → Conn p → Outcome p → Type 0
Unchanged s c o = (rs : List Reply) × (more : Bool) × (o ≡ answered s c rs more)

module _ (e : Env) {p : Policy} where
  run_command-ping :
      (args : List Bytes) (s : Server p) (c : Conn p)
      → Unchanged s c (run_command e (text "PING") args s c)
  unfolding Unchanged run_command handle handlers cmd_ping Bytes-discrete ℕ_discrete lookup
      handler_table
  run_command-ping (_ ∷ a ∷ _) s c = (_, true, refl)
  run_command-ping (_ ∷ []) s c = (_, true, refl)
  run_command-ping [] s c = (_, true, refl)

  run_command-quit :
      (args : List Bytes) (s : Server p) (c : Conn p)
      → Unchanged s c (run_command e (text "QUIT") args s c)
  unfolding Unchanged run_command Bytes-discrete ℕ_discrete lookup handler_table
  run_command-quit args s c = (_, false, refl)

  cmd_auth-wrong :
      (name given : Bytes) (s : Server p) (c : Conn p)
      → same given s.password ≡ false
      → (r : Reply) × (cmd_auth (name ∷ given ∷ []) s c ≡ (c, r))
  unfolding cmd_auth
  cmd_auth-wrong name given s c h = elim (Bool-cases (same s.password [])) [
    | inl f ↦ (
      error (text "ERR Client sent AUTH, but no password is set"),
      ap
          (λ b.
            if b then (c, error (text "ERR Client sent AUTH, but no password is set")) else checked)
          f,
    )
    | inr f ↦ (
      error (text "WRONGPASS invalid username-password pair"),
      ap
            (λ b.
              if b
              then (c, error (text "ERR Client sent AUTH, but no password is set"))
              else checked)
            f
          ∙ ap
              (λ b.
                if not b
                then (c, error (text "WRONGPASS invalid username-password pair"))
                else (record c { authed = true }, ok))
              h,
    )
  ]
    where
      checked : Conn p × Reply
      checked =
          if not (same given s.password)
          then (c, error (text "WRONGPASS invalid username-password pair"))
          else (record c { authed = true }, ok)

  run_command-auth_lem :
      (args : List Bytes) (s : Server p) (c : Conn p)
      → run_command e (text "AUTH") args s c
        ≡ answered s (cmd_auth args s c).0 ((cmd_auth args s c).1 ∷ []) true
  unfolding run_command Bytes-discrete ℕ_discrete lookup handler_table
  run_command-auth_lem args s c = refl

  cmd_auth-Unchanged :
      (args : List Bytes) (s : Server p) (c : Conn p) (r : Reply)
      → cmd_auth args s c ≡ (c, r)
      → Unchanged s c (run_command e (text "AUTH") args s c)
  unfolding Unchanged
  cmd_auth-Unchanged args s c r h = (
    r ∷ [],
    true,
    run_command-auth_lem args s c ∙ ap (λ (a : Conn p × Reply). answered s a.0 (a.1 ∷ []) true) h,
  )

  run_command-auth :
      (name : Bytes) (args : List Bytes) (s : Server p) (c : Conn p)
      → same (to_upper e name) (text "AUTH") ≡ true
      → gives_password e s.password (name ∷ args) ≡ false
      → Unchanged s c (run_command e (text "AUTH") (name ∷ args) s c)
  unfolding cmd_auth gives_password
  run_command-auth name [] s c up h = cmd_auth-Unchanged (name ∷ []) s c _ refl
  run_command-auth name (a ∷ b ∷ rest) s c up h =
      cmd_auth-Unchanged (name ∷ a ∷ b ∷ rest) s c _ refl
  run_command-auth name (given ∷ []) s c up h =
      let (r, w) = cmd_auth-wrong name given s c (ground (arith, up, h)) in
      cmd_auth-Unchanged (name ∷ given ∷ []) s c r w

  free_command :
      (name cmd : Bytes) (args : List Bytes) (s : Server p) (c : Conn p)
      → to_upper e name ≡ cmd
      → any_of cmd before_auth ≡ true
      → gives_password e s.password (name ∷ args) ≡ false
      → Unchanged s c (run_command e cmd (name ∷ args) s c)
  free_command name cmd args s c up free h = elim (Bool-cases (same cmd (text "AUTH"))) [
    | inl a ↦
        subst (λ k. Unchanged s c (run_command e k (name ∷ args) s c))
          (sym (same→eq cmd (text "AUTH") a))
          (run_command-auth name args s c (ap (λ k. same k (text "AUTH")) up ∙ a) h)
    | inr a ↦ elim (Bool-cases (same cmd (text "QUIT"))) [
      | inl b ↦
          subst (λ k. Unchanged s c (run_command e k (name ∷ args) s c))
            (sym (same→eq cmd (text "QUIT") b)) (run_command-quit (name ∷ args) s c)
      | inr b ↦ elim (Bool-cases (same cmd (text "PING"))) [
        | inl d ↦
            subst (λ k. Unchanged s c (run_command e k (name ∷ args) s c))
              (sym (same→eq cmd (text "PING") d)) (run_command-ping (name ∷ args) s c)
        | inr d ↦ absurd (none_free cmd a b d free)
      ]
    ]
  ]
    where
      none_free :
          (k : Bytes)
          → same k (text "AUTH") ≡ false
          → same k (text "QUIT") ≡ false
          → same k (text "PING") ≡ false
          → any_of k before_auth ≡ true
          → ⊥
      none_free k a b d free = ground (arith, a, b, d, free)

  dispatch_named-asks :
      (cmd : Bytes) (args : List Bytes) (s : Server p) (c : Conn p)
      → needs_auth cmd s c ≡ true
      → Unchanged s c (dispatch_named e cmd args s c)
  unfolding Unchanged dispatch_named
  dispatch_named-asks cmd args s c h = (
    _,
    true,
    ap
        (λ b.
          if b
          then answered s c (error (text "NOAUTH Authentication required.") ∷ []) true
          else (if c.in_multi && not (any_of cmd not_queued)
              then queue_command e cmd args s c
              else run_command e cmd args s c))
        h,
  )

  dispatch-Unchanged :
      (args : List Bytes) (s : Server p) (c : Conn p)
      → same s.password [] ≡ false
      → c.authed ≡ false
      → c.in_multi ≡ false
      → gives_password e s.password args ≡ false
      → Unchanged s c (dispatch e args s c)
  unfolding Unchanged dispatch
  dispatch-Unchanged [] s c locked out plain h = ([], true, refl)
  dispatch-Unchanged (name ∷ args) s c locked out plain h =
      elim (Bool-cases (needs_auth (to_upper e name) s c)) [
        | inl asks ↦ dispatch_named-asks (to_upper e name) (name ∷ args) s c asks
        | inr free ↦
            subst (Unchanged s c)
              (sym (
                dispatch_named-runs e (to_upper e name) (name ∷ args) s c free
                  (ap (λ b. b && not (any_of (to_upper e name) not_queued)) plain)))
              (free_command name (to_upper e name) args s c refl (is_free (to_upper e name) free) h)
      ]
    where
      is_free : (k : Bytes) → needs_auth k s c ≡ false → any_of k before_auth ≡ true
      is_free k f = unfold needs_auth in ground (arith, f, locked, out)

module _ (e : Env) {p : Policy} where
  go_on :
      (args : List Bytes) (commands : List (List Bytes)) (s : Server p) (c : Conn p)
      → Unchanged s c (dispatch e args s c)
      → Unchanged s c (serve e commands s c)
      → Unchanged s c (serve e (args ∷ commands) s c)
  unfolding Unchanged
  go_on args commands s c (rs, false, h) k = (rs, false, serve-stop e args commands s s c c rs h)
  go_on args commands s c (rs, true, h) (rs', more, k) =
      (rs ++ rs', more, serve-go e args commands s s s c c c rs rs' more h k)

  -- On a server with a password, for a connection that has not given it: whatever commands the
  -- client sends, none of which is an AUTH with the password, the server and the connection stay
  -- as they were, and no command crashes the server.
  pub serve-Unchanged :
      (commands : List (List Bytes)) (s : Server p) (c : Conn p)
      → same s.password [] ≡ false
      → c.authed ≡ false
      → c.in_multi ≡ false
      → All (λ args. gives_password e s.password args ≡ false) commands
      → Unchanged s c (serve e commands s c)
  serve-Unchanged [] s c locked out plain h = unfold Unchanged serve in ([], true, refl)
  serve-Unchanged (args ∷ commands) s c locked out plain h =
      go_on args commands s c (dispatch-Unchanged e args s c locked out plain h.0)
        (serve-Unchanged commands s c locked out plain h.1)
