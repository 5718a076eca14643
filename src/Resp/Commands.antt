-- ===== src/Resp/Commands.antt =====
-- resp.go and reply.go: what `WriteCommand` writes and what `ReadCommand` makes of any bytes.
use dist_cache.Base.{
  ℕ, ◌+◌, ◌^◌, ◌<◌, ◌≤◌, ◌≡◌, ◌≢◌, refl, ap, ◌∙◌, some, List, [], ◌∷◌, ◌++◌, Bytes, length,
  length-append, take, drop, take-length-append, drop-add, drop-length-append, All, arith,
}
use dist_cache.Base.Int64.{ℤ, pos}
use dist_cache.Base.Decimal.{format_int}
use dist_cache.Base.Decimal.Laws.{parse_int-format_int}
use dist_cache.Resp.{got, read_line}
use dist_cache.Resp.Lines.{read_line-crlf, format_int-IsClean}
use dist_cache.Resp.Writer.{crlf, write_bytes, write_args, write_array_header, write_command}
use dist_cache.Resp.Reader.{
  max_bulk_len, read_body, read_arg_of, read_arg, read_args, read_command_of, read_command_loop,
  read_command,
}
use mathlib.Core.List.{append_assoc}

take-body : (a rest : Bytes) → take (length a) (a ++ (13 ∷ 10 ∷ rest)) ≡ a
take-body a rest = take-length-append a (13 ∷ 10 ∷ rest)

drop-body : (a rest : Bytes) → drop (length a + 2) (a ++ (13 ∷ 10 ∷ rest)) ≡ rest
drop-body a rest =
    drop-add (length a) 2 (a ++ 13 ∷ 10 ∷ rest)
    ∙ ap (drop 2) (drop-length-append a (13 ∷ 10 ∷ rest))

pub read_body-append : (a rest : Bytes) → read_body (length a) (a ++ (13 ∷ 10 ∷ rest)) ≡ got a rest
unfolding read_body
read_body-append a rest =
    ground (arith, length-append a (13 ∷ 10 ∷ rest), take-body a rest, drop-body a rest)

-- A header line: a type byte, a number and a line end.
pub read_line-header :
    (c : ℕ) (n : ℤ) (rest : Bytes)
    → c ≢ 10
    → c ≢ 13
    → read_line ((c ∷ format_int n) ++ 13 ∷ 10 ∷ rest) ≡ some (c ∷ format_int n, rest)
read_line-header c n rest h k =
    read_line-crlf (c ∷ format_int n) rest ((h, k), format_int-IsClean n)

pub write_bytes-append :
    (a rest : Bytes)
    → write_bytes a ++ rest
      ≡ (b'$' ∷ format_int (pos (length a))) ++ 13 ∷ 10 ∷ (a ++ 13 ∷ 10 ∷ rest)
unfolding write_bytes
write_bytes-append a rest = simp append_assoc refl

read_arg-write_bytes :
    (a rest : Bytes) → length a ≤ max_bulk_len → read_arg (write_bytes a ++ rest) ≡ got a rest
unfolding read_arg read_arg_of
read_arg-write_bytes a rest h =
    rw
      (
        write_bytes-append a rest,
        read_arg,
        read_line-header b'$' (pos (length a)) (a ++ 13 ∷ 10 ∷ rest) (omega arith) (omega arith),
      )
      (ground (arith, parse_int-format_int (pos (length a)), read_body-append a rest))

read_args-write_args :
    (args : List Bytes) (rest : Bytes)
    → All (λ a. length a ≤ max_bulk_len) args
    → read_args (length args) (write_args args ++ rest) ≡ got args rest
unfolding read_args write_args
read_args-write_args [] rest h = refl
read_args-write_args (a ∷ args) rest h =
    rw
      (
        append_assoc (write_bytes a) (write_args args) rest,
        read_args,
        read_arg-write_bytes a (write_args args ++ rest) h.0,
        read_args-write_args args rest h.1,
      )
      refl

write_command-append :
    (args : List Bytes) (rest : Bytes)
    → write_command args ++ rest
      ≡ (b'*' ∷ format_int (pos (length args))) ++ 13 ∷ 10 ∷ (write_args args ++ rest)
unfolding write_command write_array_header
write_command-append args rest = ground (
  arith,
  append_assoc (format_int (pos (length args))) crlf (write_args args ++ rest),
  append_assoc (write_array_header (pos (length args))) (write_args args) rest,
)

-- A command of arguments within the limit on a bulk, fewer than the server can make in one array:
-- from the front of a connection on which `WriteCommand` wrote it, `ReadCommand` gives the command,
-- whatever bytes its arguments have, and leaves the bytes behind it.
pub read_command-write_command :
    (room : ℕ) (args : List Bytes) (rest : Bytes)
    → All (λ a. length a ≤ max_bulk_len) args
    → length args ≤ room
    → length args < 2 ^ 63
    → read_command room (write_command args ++ rest) ≡ got args rest
unfolding read_command read_command_loop read_command_of
read_command-write_command room args rest h fits small =
    rw
      (
        write_command-append args rest,
        read_command,
        read_command_loop,
        read_line-header b'*' (pos (length args)) (write_args args ++ rest) (omega arith)
            (omega arith),
      )
      (ground (arith, parse_int-format_int (pos (length args)), read_args-write_args args rest h))
