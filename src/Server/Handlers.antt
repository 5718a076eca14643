-- ===== src/Server/Handlers.antt =====
-- commands.go: the handlers of the table `handlers`, which need the cache only.
pub mod SetGet
pub mod Arity
use dist_cache.Base.{
  ℕ, zero, suc, ◌+◌, ◌/◌, ◌%◌, Bool, true, false, not, ◌&&◌, ◌||◌, Option, none, some, List, [],
  ◌∷◌, ◌++◌, Bytes, length, map, same, bytes_eq, if◌then◌else◌, ltb, leb, ◌==◌,
}
use dist_cache.Base.Assoc.{Assoc, lookup}
use dist_cache.Base.Decimal.{parse_int}
use dist_cache.Base.Int64.{ℤ, pos, negsuc, pos_part, wrap, ◌-ℤ◌, ltz}
use dist_cache.Base.Text.{text}
use dist_cache.Cache.Store
use dist_cache.Cache.Store.{Cache}
use dist_cache.Eviction.Policy.{Policy}
use dist_cache.Server.Options.{Options, ttl_of, refused, read_options}
use dist_cache.Server.Reply.{Reply, replies, simple, error, int, bulk, nil, array}
use dist_cache.Server.World.{
  Env, World, to_upper, to_lower, times, second, millisecond, now, after, after_ttl,
}

abbrev pub ok : Reply
ok = simple (text "OK")

-- `rBulk` of a stored value: an empty value is stored as a nil slice.
abbrev pub stored_bulk : Bytes → Reply
stored_bulk [] = nil
stored_bulk (b ∷ bs) = bulk (b ∷ bs)

abbrev pub one_or_zero : Bool → Reply
one_or_zero true = int (pos 1)
one_or_zero false = int (pos 0)

-- `rem / unit` of a Go division, which rounds towards 0.
abbrev pub divide : ℤ → ℕ → ℤ
divide (pos n) unit = pos (n / unit)
divide (negsuc n) unit = elim ((n + 1) / unit) as (λ _. ℤ) [ zero ↦ pos 0 | suc m ↦ negsuc m ]

abbrev pub not_integer : Reply
not_integer = error (text "ERR value is not an integer or out of range")

-- A handler of the table: the arguments, the command's name among them.
abbrev pub Handler : Policy → Type 0
Handler p = List Bytes → World p → World p × Reply

abbrev wrong_number_for : Bytes → Reply
wrong_number_for name =
    error (text "ERR wrong number of arguments for '" ++ (to_lower name ++ text "'"))

module _ (e : Env) where
  -- The keys that a pattern names; `*` names all.
  unfoldable pub matching : Bytes → List Bytes → List Reply
  matching pattern [] = []
  matching pattern (k ∷ ks) =
      let rest = matching pattern ks in
      if same pattern (text "*") || e.matches pattern k then bulk k ∷ rest else rest

module _ (e : Env) {p : Policy} where
  unfoldable pub cmd_ping : Handler p
  cmd_ping (_ ∷ a ∷ _) w = (w, bulk a)
  cmd_ping _ w = (w, simple (text "PONG"))

  unfoldable pub cmd_echo : Handler p
  cmd_echo (_ ∷ a ∷ []) w = (w, bulk a)
  cmd_echo _ w = (w, error (text "ERR wrong number of arguments for 'echo'"))

  unfoldable pub cmd_set : Handler p
  unfolding read_options
  cmd_set (_ ∷ key ∷ val ∷ opts) w = elim (read_options e (pos 0) opts) as (λ _. World p × Reply) [
    | refused why ↦ (w, error why)
    | ttl_of ttl ↦ (after_ttl ttl (Store.set_ttl e.hash key val ttl (now w) w.cache) w, ok)
  ]
  cmd_set _ w = (w, error (text "ERR wrong number of arguments for 'set'"))

  unfoldable pub cmd_get : Handler p
  cmd_get (_ ∷ key ∷ []) w =
      let (c, v, found) = Store.get e.hash key (now w) w.cache in
      (after c w, if found then stored_bulk v else nil)
  cmd_get _ w = (w, error (text "ERR wrong number of arguments for 'get'"))

  -- The loops of DEL and EXISTS, with the count so far.
  unfoldable pub delete_all : ℕ → List Bytes → Cache p → Cache p × ℕ
  delete_all n [] c = (c, n)
  delete_all n (k ∷ ks) c =
      let (c', deleted) = Store.delete e.hash k c in delete_all (if deleted then n + 1 else n) ks c'

  unfoldable pub cmd_del : Handler p
  unfolding delete_all
  cmd_del (_ ∷ k ∷ ks) w =
      let (c, n) = delete_all 0 (k ∷ ks) w.cache in (record w { cache = c }, int (pos n))
  cmd_del _ w = (w, error (text "ERR wrong number of arguments for 'del'"))

  unfoldable pub count_existing : ℕ → List Bytes → World p → World p × ℕ
  count_existing n [] w = (w, n)
  count_existing n (k ∷ ks) w =
      let (c, there) = Store.exists e.hash k (now w) w.cache in
      count_existing (if there then n + 1 else n) ks (after c w)

  unfoldable pub cmd_exists : Handler p
  unfolding count_existing
  cmd_exists (_ ∷ k ∷ ks) w = let (w', n) = count_existing 0 (k ∷ ks) w in (w', int (pos n))
  cmd_exists _ w = (w, error (text "ERR wrong number of arguments for 'exists'"))

  unfoldable pub incr_key : Bytes → ℤ → World p → World p × Reply
  incr_key key delta w =
      let (c, r) = Store.incr_by e.hash key delta (now w) w.cache in
      (after c w, elim r as (λ _. Reply) [ none ↦ not_integer | some v ↦ int v ])

  -- `incrBy` with a given step, and with the step in the arguments.
  unfoldable pub incr_step : ℤ → Handler p
  unfolding incr_key to_upper to_lower
  incr_step step (_ ∷ key ∷ []) w = incr_key key step w
  incr_step step (name ∷ _) w = (w, wrong_number_for (to_upper e name))
  incr_step step [] w = (w, wrong_number_for [])

  unfoldable pub incr_explicit : Handler p
  unfolding incr_key to_upper to_lower
  incr_explicit (name ∷ key ∷ number ∷ []) w = elim (parse_int number) as (λ _. World p × Reply) [
    | none ↦ (w, not_integer)
    | some n ↦ incr_key key (if same (to_upper e name) (text "DECRBY") then pos 0 -ℤ n else n) w
  ]
  incr_explicit (name ∷ _) w = (w, wrong_number_for (to_upper e name))
  incr_explicit [] w = (w, wrong_number_for [])

  -- The pairs of MSET, stored in turn; without a time to live the clock is not read.
  unfoldable pub set_pairs : List Bytes → World p → World p
  set_pairs (key ∷ val ∷ rest) w =
      set_pairs rest (record w { cache = Store.set_ttl e.hash key val (pos 0) (now w) w.cache })
  set_pairs _ w = w

  unfoldable pub cmd_mset : Handler p
  unfolding set_pairs
  cmd_mset args w =
      if ltb (length args) 3 || (length args % 2 == 0)
      then (w, error (text "ERR wrong number of arguments for 'mset'"))
      else elim args as (λ _. World p × Reply) [
        | [] ↦ (w, ok)
        | _ ∷ pairs ↦ (set_pairs pairs w, ok)
      ]

  unfoldable pub get_all : List Bytes → World p → World p × List Reply
  get_all [] w = (w, [])
  get_all (k ∷ ks) w =
      let (c, v, found) = Store.get e.hash k (now w) w.cache in
      let rest = get_all ks (after c w) in (rest.0, (if found then stored_bulk v else nil) ∷ rest.1)

  unfoldable pub cmd_mget : Handler p
  unfolding get_all
  cmd_mget (_ ∷ k ∷ ks) w = let (w', rs) = get_all (k ∷ ks) w in (w', array (replies rs))
  cmd_mget _ w = (w, error (text "ERR wrong number of arguments for 'mget'"))

  -- `Expire` reads the clock for a time to live that is positive, and once more for the shard.
  unfoldable pub expire_key : Bytes → ℤ → World p → World p × Reply
  expire_key key ttl w =
      let later = after_ttl ttl w.cache w in
      let (c, ok') = Store.expire e.hash key ttl (now w) (now later) w.cache in
      (after c later, one_or_zero ok')

  unfoldable pub expire_unit : ℕ → Handler p
  unfolding expire_key times
  expire_unit unit (_ ∷ key ∷ number ∷ []) w = elim (parse_int number) as (λ _. World p × Reply) [
    | none ↦ (w, not_integer)
    | some n ↦ expire_key key (times n unit) w
  ]
  expire_unit unit _ w = (w, error (text "ERR wrong number of arguments"))

  unfoldable pub cmd_persist : Handler p
  unfolding expire_key
  cmd_persist (_ ∷ key ∷ []) w = expire_key key (pos 0) w
  cmd_persist _ w = (w, error (text "ERR wrong number of arguments for 'persist'"))

  unfoldable pub ttl_unit : ℕ → Handler p
  ttl_unit unit (_ ∷ key ∷ []) w =
      let (c, rem, found, persists) = Store.ttl e.hash key (now w) w.cache in
      (
        after c w,
        if not found
            then int (negsuc 1)
            else if persists
            then int (negsuc 0)
            else int (divide rem unit),
      )
  ttl_unit unit _ w = (w, error (text "ERR wrong number of arguments"))

  unfoldable pub cmd_keys : Handler p
  unfolding matching
  cmd_keys (_ ∷ pattern ∷ _) w =
      (after w.cache w, array (replies (matching e pattern (Store.keys (now w) w.cache))))
  cmd_keys _ w =
      (after w.cache w, array (replies (matching e (text "*") (Store.keys (now w) w.cache))))

  unfoldable pub cmd_dbsize : Handler p
  cmd_dbsize args w = (w, int (pos (Store.len w.cache)))

  unfoldable pub cmd_type : Handler p
  cmd_type (_ ∷ key ∷ []) w =
      let (c, there) = Store.exists e.hash key (now w) w.cache in
      (after c w, simple (if there then text "string" else text "none"))
  cmd_type _ w = (w, error (text "ERR wrong number of arguments for 'type'"))

  unfoldable pub cmd_flush_all : Handler p
  cmd_flush_all args w = (record w { cache = Store.flush_all w.cache }, ok)

  -- The table `handlers`.
  unfoldable pub handler_table : Assoc Bytes (Handler p)
  handler_table =
      (text "PING", cmd_ping)
      ∷ (text "ECHO", cmd_echo)
      ∷ (text "SET", cmd_set)
      ∷ (text "GET", cmd_get)
      ∷ (text "DEL", cmd_del)
      ∷ (text "EXISTS", cmd_exists)
      ∷ (text "INCR", incr_step (pos 1))
      ∷ (text "DECR", incr_step (negsuc 0))
      ∷ (text "INCRBY", incr_explicit)
      ∷ (text "DECRBY", incr_explicit)
      ∷ (text "MSET", cmd_mset)
      ∷ (text "MGET", cmd_mget)
      ∷ (text "EXPIRE", expire_unit second)
      ∷ (text "PEXPIRE", expire_unit millisecond)
      ∷ (text "TTL", ttl_unit second)
      ∷ (text "PTTL", ttl_unit millisecond)
      ∷ (text "PERSIST", cmd_persist)
      ∷ (text "KEYS", cmd_keys)
      ∷ (text "DBSIZE", cmd_dbsize)
      ∷ (text "TYPE", cmd_type)
      ∷ (text "FLUSHALL", cmd_flush_all)
      ∷ []

  -- `h, ok := handlers[cmd]`
  unfoldable pub handlers : Bytes → Option (Handler p)
  unfolding handler_table
  handlers name = lookup name handler_table
