-- ===== src/Tests/Commands.antt =====
-- The commands of a client, at concrete inputs.
use dist_cache.Base.{
  ◌+◌, ◌≡◌, ◌++◌, refl, true, false, none, some, [], ◌∷◌, Bytes, bytes_eq, Bytes-discrete,
  ℕ_discrete, List, All, same, if◌then◌else◌,
}
use dist_cache.Base.Assoc.{lookup}
use dist_cache.Base.Decimal.{parse_int, read_nat, read_digits}
use dist_cache.Base.Int64.{pos, wrap}
use dist_cache.Base.Text.{text}
use dist_cache.Cache.Item.{expired}
use dist_cache.Cache.Store.{new_cache}
use dist_cache.Cache.Store.Routing.{new_item}
use dist_cache.Eviction.Lru.{lru}
use dist_cache.Locks
use dist_cache.PubSub.{new_broker}
use dist_cache.Resp.Writer.{write_error}
use dist_cache.Server.Conn.{Server, Conn, new_conn}
use dist_cache.Server.Dispatch.{answered, serve}
use dist_cache.Server.Dispatch.Auth.{Unchanged, gives_password, serve-Unchanged}
use dist_cache.Server.Dispatch.Exec.{multi_args, exec_args, serve-multi}
use dist_cache.Server.Dispatch.Multi.{IsHandled, IsCleared, queued_replies}
use dist_cache.Server.Handlers.{handlers, handler_table, cmd_set, cmd_get, ok, stored_bulk}
use dist_cache.Server.Handlers.Arity.{takes, handlers-Refuses}
use dist_cache.Server.Handlers.SetGet.{cmd_get-cmd_set}
use dist_cache.Server.Options.{ttl_of, read_options, expire_time}
use dist_cache.Server.Reply.{Reply, replies, error, nil, array, write_reply}
use dist_cache.Server.World.{Env, World, to_upper, times}
use dist_cache.Txn.{new_coordinator}

abbrev plain : Env
plain = record {
  hash = λ k. 0;
  upper_wide = λ s. s;
  matches = λ pattern k. false;
  go_version = text "go1.22";
  four_decimals = λ a b. text "0.0000";
}

-- A clock that reads 1000, 1001, and so on.
abbrev fresh : World lru
fresh = record { cache = new_cache lru (pos 1) (pos 0) (pos 0); clock = λ n. pos (n + 1000) }

abbrev server_with : Bytes → Server lru
server_with password = record {
  password = password;
  node_id = text "node-1";
  attached = record { replica = none; primary = none; registry = none };
  world = fresh;
  locks = Locks.empty;
  tokens = λ n. n ∷ [];
  co = new_coordinator;
  broker = new_broker;
}

abbrev client : Conn lru
client = new_conn (text "10.0.0.2:5000") (text "10.0.0.1:6379")

abbrev attempts : List (List Bytes)
attempts =
    (text "get" ∷ text "a" ∷ [])
    ∷ (text "auth" ∷ text "guess" ∷ [])
    ∷ (text "ping" ∷ [])
    ∷ (text "FLUSHALL" ∷ [])
    ∷ []

attempts_wrong : All (λ args. gives_password plain (text "secret") args ≡ false) attempts
unfolding gives_password to_upper Bytes-discrete ℕ_discrete
attempts_wrong = (refl, (refl, (refl, (refl, tt))))

locked : same (text "secret") [] ≡ false
unfolding Bytes-discrete ℕ_discrete
locked = refl

serve-Unchanged_example :
    Unchanged
      (server_with (text "secret"))
      client
      (serve plain attempts (server_with (text "secret")) client)
serve-Unchanged_example =
    serve-Unchanged plain attempts (server_with (text "secret")) client locked refl refl
      attempts_wrong

abbrev set_then_get : List (List Bytes)
set_then_get =
    (text "set" ∷ text "a" ∷ text "1" ∷ [])
    ∷ (text "incr" ∷ text "a" ∷ [])
    ∷ (text "get" ∷ text "a" ∷ [])
    ∷ []

set_then_get-IsHandled : All (IsHandled plain lru) set_then_get
unfolding IsHandled handlers handler_table lookup to_upper Bytes-discrete ℕ_discrete
set_then_get-IsHandled = ((_, refl), ((_, refl), ((_, refl), tt)))

open_server-IsCleared : IsCleared plain lru (server_with []) client
unfolding IsCleared Bytes-discrete ℕ_discrete
open_server-IsCleared = refl

serve-multi_example :
    (s' : Server lru) × (rs : List Reply) × (serve plain set_then_get (server_with []) client
      ≡ answered s' client rs true)
    × (serve plain (multi_args ∷ (set_then_get ++ exec_args ∷ [])) (server_with []) client
        ≡ answered s' client
            (ok ∷ (queued_replies plain lru set_then_get ++ array (replies rs) ∷ []))
            true)
serve-multi_example =
    serve-multi plain set_then_get (server_with []) client open_server-IsCleared refl refl
      set_then_get-IsHandled

abbrev for_a_moment : List Bytes
for_a_moment = text "px" ∷ text "5" ∷ []

for_a_moment_lem : read_options plain (pos 0) for_a_moment ≡ ttl_of (pos 5000000)
unfolding read_options expire_time times wrap parse_int read_nat read_digits to_upper Bytes-discrete
    ℕ_discrete
for_a_moment_lem = refl

cmd_get-cmd_set_example :
    ((cmd_set plain (text "SET" ∷ text "a" ∷ text "1" ∷ for_a_moment) fresh).1 ≡ ok)
    × ((cmd_get plain
          (text "GET" ∷ text "a" ∷ [])
          (cmd_set plain (text "SET" ∷ text "a" ∷ text "1" ∷ for_a_moment) fresh).0).1
        ≡ (if expired (new_item (text "1") (pos 5000000) (fresh.clock 0)) (fresh.clock 1)
            then nil
            else stored_bulk (text "1")))
cmd_get-cmd_set_example =
    cmd_get-cmd_set plain (text "SET") (text "GET") (text "a") (text "1") for_a_moment (pos 5000000)
      fresh for_a_moment_lem

get_handler : handlers plain {p = lru} (text "GET") ≡ some (cmd_get plain)
unfolding handlers handler_table lookup Bytes-discrete ℕ_discrete
get_handler = refl

get_alone : takes (text "GET") 1 ≡ false
unfolding takes lookup Bytes-discrete ℕ_discrete
get_alone = refl

handlers-Refuses_example :
    (why : Bytes) × (cmd_get plain (text "GET" ∷ []) fresh ≡ (fresh, error why))
handlers-Refuses_example =
    handlers-Refuses plain lru (text "GET") (cmd_get plain) (text "GET" ∷ []) fresh get_handler
      get_alone

-- The name of an unknown command is repeated in the error with its line ends, so that the client
-- reads one reply too many.
split_reply :
    write_reply
      (error (text "ERR unknown command '" ++ ((88 ∷ 13 ∷ 10 ∷ 43 ∷ 79 ∷ 75 ∷ []) ++ text "'")))
    ≡ text "-ERR unknown command 'X" ++ (13 ∷ 10 ∷ (text "+OK'" ++ 13 ∷ 10 ∷ []))
unfolding write_reply write_error
split_reply = refl
