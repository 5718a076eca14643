-- ===== src/Resp/Reader.antt =====
-- resp.go: the commands that the server reads.
use dist_cache.Base.{
  ℕ, zero, suc, ◌+◌, ◌*◌, ◌^◌, Option, none, some, List, [], ◌∷◌, Bytes, length, take, drop,
  if◌then◌else◌, ltb, ◌==◌,
}
use dist_cache.Base.Decimal.{parse_int}
use dist_cache.Base.Int64.{pos, negsuc}
use dist_cache.Resp.{Read, got, cut_off, protocol_error, panicked, unfinished, read_line}
use dist_cache.Resp.Fields.{fields}

abbrev pub max_bulk_len : ℕ
max_bulk_len = 256 * 2 ^ 20

unfoldable pub parse_inline : Bytes → Option (List Bytes)
unfolding fields
parse_inline line = elim (fields line) [ [] ↦ none | w ∷ ws ↦ some (w ∷ ws) ]

-- `io.ReadFull` of `n` bytes and the two behind them, which are not looked at.
unfoldable pub read_body : ℕ → Bytes → Read Bytes
read_body n bytes =
    if ltb (length bytes) (n + 2) then cut_off else got (take n bytes) (drop (n + 2) bytes)

-- One round of the loop of `ReadCommand`, from the line of the length on.
unfoldable pub read_arg_of : Bytes → Bytes → Read Bytes
unfolding read_body
read_arg_of [] rest = protocol_error
read_arg_of (c ∷ cs) rest =
    if c == b'$'
    then (elim (parse_int cs) as (λ _. Read Bytes) [
      | none ↦ protocol_error
      | some (negsuc n) ↦ protocol_error
      | some (pos n) ↦ if ltb max_bulk_len n then protocol_error else read_body n rest
    ])
    else protocol_error

unfoldable pub read_arg : Bytes → Read Bytes
unfolding read_arg_of
read_arg bytes = elim (read_line bytes) as (λ _. Read Bytes) [
  | none ↦ cut_off
  | some (line, rest) ↦ read_arg_of line rest
]

unfoldable pub read_args : ℕ → Bytes → Read (List Bytes)
unfolding read_arg
read_args zero bytes = got [] bytes
read_args (suc n) bytes = elim (read_arg bytes) as (λ _. Read (List Bytes)) [
  | got a rest ↦ elim (read_args n rest) as (λ _. Read (List Bytes)) [
    | got args rest' ↦ got (a ∷ args) rest'
    | cut_off ↦ cut_off
    | protocol_error ↦ protocol_error
    | panicked ↦ panicked
    | unfinished ↦ unfinished
  ]
  | cut_off ↦ cut_off
  | protocol_error ↦ protocol_error
  | panicked ↦ panicked
  | unfinished ↦ unfinished
]

-- A slice of at most `room` elements can be made: the Go run time panics at a larger one.
module _ (room : ℕ) where
  -- `ReadCommand` from a line that is not empty on.
  unfoldable pub read_command_of : ℕ → Bytes → Bytes → Read (List Bytes)
  unfolding parse_inline read_args
  read_command_of c cs rest =
      if c == b'*'
      then (elim (parse_int cs) as (λ _. Read (List Bytes)) [
        | none ↦ protocol_error
        | some (negsuc n) ↦ protocol_error
        | some (pos n) ↦ if ltb room n then panicked else read_args n rest
      ])
      else (elim (parse_inline (c ∷ cs)) as (λ _. Read (List Bytes)) [
        | none ↦ protocol_error
        | some args ↦ got args rest
      ])

  -- An empty line is skipped by a recursive call.
  unfoldable pub read_command_loop : ℕ → Bytes → Read (List Bytes)
  unfolding read_command_of
  read_command_loop zero bytes = unfinished
  read_command_loop (suc fuel) bytes = elim (read_line bytes) as (λ _. Read (List Bytes)) [
    | none ↦ cut_off
    | some ([], rest) ↦ read_command_loop fuel rest
    | some (c ∷ cs, rest) ↦ read_command_of c cs rest
  ]

  unfoldable pub read_command : Bytes → Read (List Bytes)
  unfolding read_command_loop
  read_command bytes = read_command_loop (suc (length bytes)) bytes
