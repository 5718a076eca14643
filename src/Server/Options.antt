-- ===== src/Server/Options.antt =====
-- commands.go: the options of SET.
use dist_cache.Base.{◌||◌, Option, none, some, List, [], ◌∷◌, Bytes, same, bytes_eq, if◌then◌else◌}
use dist_cache.Base.Decimal.{parse_int}
use dist_cache.Base.Int64.{ℤ, pos, lez}
use dist_cache.Base.Text.{text}
use dist_cache.Server.World.{Env, to_upper, times, second, millisecond}

-- The time to live, or the text of an error.
pub data Options : Type 0 where
  ttl_of : ℤ → Options
  refused : Bytes → Options

-- The number behind EX or PX; `none` is an error.
unfoldable pub expire_time : Bytes → Bytes → Option ℤ
unfolding times
expire_time opt number = elim (parse_int number) as (λ _. Option ℤ) [
  | none ↦ none
  | some n ↦
      if lez n (pos 0)
      then none
      else if same opt (text "EX")
      then some (times n second)
      else some (times n millisecond)
]

module _ (e : Env) where
  -- The loop over the arguments behind the value, with the time to live so far.
  unfoldable pub read_options : ℤ → List Bytes → Options
  unfolding to_upper expire_time
  read_options ttl [] = ttl_of ttl
  read_options ttl (opt ∷ []) = refused (text "ERR syntax error")
  read_options ttl (opt ∷ number ∷ rest) =
      if same (to_upper e opt) (text "EX") || same (to_upper e opt) (text "PX")
      then (elim (expire_time (to_upper e opt) number) as (λ _. Options) [
        | none ↦ refused (text "ERR invalid expire time in 'set'")
        | some ttl' ↦ read_options ttl' rest
      ])
      else refused (text "ERR syntax error")
