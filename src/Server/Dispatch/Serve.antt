-- ===== src/Server/Dispatch/Serve.antt =====
-- `serve` and `dispatch` step by step.
use dist_cache.Base.{
  ◌≡◌, refl, Bool, true, false, not, ◌&&◌, List, ◌∷◌, ◌++◌, Bytes, same, arith, bytes_eq,
}
use dist_cache.Eviction.Policy.{Policy}
use dist_cache.Server.Conn.{Server, Conn}
use dist_cache.Server.Dispatch.{
  answered, any_of, not_queued, needs_auth, queue_command, run_command, dispatch_named, dispatch,
  serve,
}
use dist_cache.Server.Reply.{Reply}
use dist_cache.Server.World.{Env}

pub same→eq : (a b : Bytes) → same a b ≡ true → a ≡ b
same→eq a b h = ground arith

module _ (e : Env) {p : Policy} where
  pub serve-stop :
      (args : List Bytes) (commands : List (List Bytes)) (s s' : Server p) (c c' : Conn p)
      (rs : List Reply)
      → dispatch e args s c ≡ answered s' c' rs false
      → serve e (args ∷ commands) s c ≡ answered s' c' rs false
  unfolding serve
  serve-stop args commands s s' c c' rs h = rw (serve, h) refl

  pub serve-go :
      (args : List Bytes) (commands : List (List Bytes)) (s s' s'' : Server p) (c c' c'' : Conn p)
      (rs rs' : List Reply) (more : Bool)
      → dispatch e args s c ≡ answered s' c' rs true
      → serve e commands s' c' ≡ answered s'' c'' rs' more
      → serve e (args ∷ commands) s c ≡ answered s'' c'' (rs ++ rs') more
  unfolding serve
  serve-go args commands s s' s'' c c' c'' rs rs' more h k = rw (serve, h, k) refl

  pub dispatch_named-runs :
      (cmd : Bytes) (args : List Bytes) (s : Server p) (c : Conn p)
      → needs_auth cmd s c ≡ false
      → c.in_multi && not (any_of cmd not_queued) ≡ false
      → dispatch_named e cmd args s c ≡ run_command e cmd args s c
  unfolding dispatch_named
  dispatch_named-runs cmd args s c h k = ground (arith, h, k)

  pub dispatch_named-queues :
      (cmd : Bytes) (args : List Bytes) (s : Server p) (c : Conn p)
      → needs_auth cmd s c ≡ false
      → c.in_multi && not (any_of cmd not_queued) ≡ true
      → dispatch_named e cmd args s c ≡ queue_command e cmd args s c
  unfolding dispatch_named
  dispatch_named-queues cmd args s c h k = ground (arith, h, k)
