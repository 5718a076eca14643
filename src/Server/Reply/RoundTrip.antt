-- ===== src/Server/Reply/RoundTrip.antt =====
-- `ReadReply` of a client reads what `writeReply` of the server wrote.
use dist_cache.Base.{
  ℕ, zero, suc, ◌+◌, ◌^◌, ◌<◌, ◌≤◌, ◌≡◌, ◌≢◌, refl, ap, ◌∙◌, sym, some, [], ◌∷◌, ◌++◌, Bytes,
  length, length-append, arith,
}
use dist_cache.Base.Int64.{ℤ, pos, negsuc, IsInt64}
use dist_cache.Base.Decimal.{parse_int, format_int}
use dist_cache.Base.Decimal.Laws.{parse_int-format_int}
use dist_cache.Resp.{Read, got}
use dist_cache.Resp.Lines.{IsClean, read_line-crlf, format_int-IsClean}
use dist_cache.Resp.Writer.{
  crlf, write_simple, write_error, write_int, write_nil, write_array_header,
}
use dist_cache.Resp.Reader.{read_body}
use dist_cache.Resp.Commands.{write_bytes-append, read_body-append}
use dist_cache.Resp.Value.{
  Value, Values, read_values, read_bulk, read_array, read_typed, read_nested, read_reply, as_array,
  with_value,
}
use dist_cache.Server.Reply.{Reply, Replies, count, write_reply, write_replies}
use mathlib.Core.List.{append_assoc}

unfoldable mutual
  pub value_of : Reply → Value
  value_of (Reply.simple s) = Value.simple s
  value_of (Reply.error s) = Value.error s
  value_of (Reply.int n) = Value.int n
  value_of (Reply.bulk b) = Value.bulk b
  value_of Reply.nil = Value.nil_bulk
  value_of (Reply.array rs) = Value.array (values_of rs)
  value_of Reply.nil_array = Value.nil_array

  pub values_of : Replies → Values
  values_of Replies.end = Values.end
  values_of (Replies.more r rs) = Values.more (value_of r) (values_of rs)

-- How deep arrays stand in one another.
mutual
  depth : Reply → ℕ
  depth (Reply.simple s) = 0
  depth (Reply.error s) = 0
  depth (Reply.int n) = 0
  depth (Reply.bulk b) = 0
  depth Reply.nil = 0
  depth (Reply.array rs) = suc (depths rs)
  depth Reply.nil_array = 0

  -- A bound for all of them.
  depths : Replies → ℕ
  depths Replies.end = 0
  depths (Replies.more r rs) = depth r + depths rs

minus_one : parse_int (b'-' ∷ b'1' ∷ []) ≡ some (negsuc 0)
unfolding parse_int
minus_one = refl

module _ (room value_room : ℕ) where
  unfoldable mutual
    -- One line for a text, 64 bits for a number, and the client's limits for a bulk and an array.
    pub Fits : Reply → Type 0
    Fits (Reply.simple s) = IsClean s
    Fits (Reply.error s) = IsClean s
    Fits (Reply.int n) = IsInt64 n
    Fits (Reply.bulk b) = (length b + 2 ≤ room) × (length b < 2 ^ 63)
    Fits Reply.nil = Unit
    Fits (Reply.array rs) = (count rs ≤ value_room) × (count rs < 2 ^ 63) × AllFit rs
    Fits Reply.nil_array = Unit

    pub AllFit : Replies → Type 0
    AllFit Replies.end = Unit
    AllFit (Replies.more r rs) = Fits r × AllFit rs

  -- A line that starts with a type byte, written out.
  read_nested-line :
      (fuel typ : ℕ) (line rest : Bytes)
      → typ ≢ 10
      → typ ≢ 13
      → IsClean line
      → read_nested room value_room (suc fuel) ((typ ∷ (line ++ crlf)) ++ rest)
        ≡ read_typed room value_room (read_nested room value_room fuel) typ line rest
  unfolding read_nested
  read_nested-line fuel typ line rest h k c =
      rw (append_assoc line crlf rest, read_nested, read_line-crlf (typ ∷ line) rest ((h, k), c))
        refl

  append_line :
      (c : ℕ) (n : ℤ) (rest : Bytes)
      → (c ∷ format_int n) ++ 13 ∷ 10 ∷ rest ≡ (c ∷ (format_int n ++ crlf)) ++ rest
  append_line c n rest = ap (◌∷◌ c) (sym (append_assoc (format_int n) crlf rest))

  read_bulk-number :
      (n : ℕ) (rest : Bytes)
      → n < 2 ^ 63
      → n + 2 ≤ room
      → read_bulk room value_room (format_int (pos n)) rest
        ≡ with_value Value.bulk (read_body n rest)
  unfolding read_bulk
  read_bulk-number n rest h k = rw (read_bulk, parse_int-format_int (pos n) h) (ground arith)

  read_array-number :
      (read : Bytes → Read Value) (n : ℕ) (rest : Bytes)
      → n < 2 ^ 63
      → n ≤ value_room
      → read_array room value_room read (format_int (pos n)) rest
        ≡ as_array (read_values read n rest)
  unfolding read_array
  read_array-number read n rest h k = rw (read_array, parse_int-format_int (pos n) h) (ground arith)

  array_header-pos : (n : ℕ) → write_array_header (pos n) ≡ b'*' ∷ (format_int (pos n) ++ crlf)
  unfolding write_array_header
  array_header-pos n = ground arith

  mutual
    unfolding depth depths Fits AllFit value_of values_of write_reply write_replies write_simple
        write_error write_int write_nil read_typed read_values

    read_nested-write_reply :
        (r : Reply) (fuel : ℕ) (rest : Bytes)
        → Fits r
        → depth r < fuel
        → read_nested room value_room fuel (write_reply r ++ rest) ≡ got (value_of r) rest
    read_nested-write_reply r zero rest h d = absurd (omega (arith, d))
    read_nested-write_reply (Reply.simple s) (suc fuel) rest h d =
        read_nested-line fuel b'+' s rest (omega arith) (omega arith) h
    read_nested-write_reply (Reply.error s) (suc fuel) rest h d =
        read_nested-line fuel b'-' s rest (omega arith) (omega arith) h
    read_nested-write_reply (Reply.int n) (suc fuel) rest h d =
        read_nested-line fuel b':' (format_int n) rest (omega arith) (omega arith)
          (format_int-IsClean n)
        ∙ rw (read_typed, parse_int-format_int n h) refl
    read_nested-write_reply (Reply.bulk b) (suc fuel) rest h d =
        rw (write_bytes-append b rest, append_line b'$' (pos (length b)) (b ++ 13 ∷ 10 ∷ rest))
          (read_nested-line fuel b'$' (format_int (pos (length b))) (b ++ 13 ∷ 10 ∷ rest)
              (omega arith) (omega arith) (format_int-IsClean (pos (length b)))
            ∙ read_bulk-number (length b) (b ++ 13 ∷ 10 ∷ rest) h.1 h.0
            ∙ ap (with_value Value.bulk) (read_body-append b rest))
    read_nested-write_reply Reply.nil (suc fuel) rest h d =
        read_nested-line fuel b'$' (b'-' ∷ b'1' ∷ []) rest (omega arith) (omega arith) (omega arith)
        ∙ rw (read_typed, read_bulk, minus_one) refl
    read_nested-write_reply (Reply.array rs) (suc fuel) rest h d =
        rw
          (
            array_header-pos (count rs),
            append_assoc (b'*' ∷ (format_int (pos (count rs)) ++ crlf)) (write_replies rs) rest,
          )
          (read_nested-line fuel b'*' (format_int (pos (count rs))) (write_replies rs ++ rest)
              (omega arith) (omega arith) (format_int-IsClean (pos (count rs)))
            ∙ read_array-number (read_nested room value_room fuel) (count rs)
                (write_replies rs ++ rest) h.1 h.0
            ∙ ap as_array (read_values-write_replies rs fuel rest h.2 (omega (arith, d))))
    read_nested-write_reply Reply.nil_array (suc fuel) rest h d =
        read_nested-line fuel b'*' (b'-' ∷ b'1' ∷ []) rest (omega arith) (omega arith) (omega arith)
        ∙ rw (read_typed, read_array, minus_one) refl

    read_values-write_replies :
        (rs : Replies) (fuel : ℕ) (rest : Bytes)
        → AllFit rs
        → depths rs < fuel
        → read_values (read_nested room value_room fuel) (count rs) (write_replies rs ++ rest)
          ≡ got (values_of rs) rest
    read_values-write_replies Replies.end fuel rest h d = refl
    read_values-write_replies (Replies.more r rs) fuel rest h d =
        rw
          (
            append_assoc (write_reply r) (write_replies rs) rest,
            read_values,
            read_nested-write_reply r fuel (write_replies rs ++ rest) h.0 (omega (arith, d)),
            read_values-write_replies rs fuel rest h.1 (omega (arith, d)),
          )
          refl

length-header : (n : ℕ) → 0 < length (write_array_header (pos n))
unfolding write_array_header
length-header n = ground arith

mutual
  unfolding depth depths write_reply write_replies

  depth-le : (r : Reply) → depth r ≤ length (write_reply r)
  depth-le (Reply.simple s) = omega arith
  depth-le (Reply.error s) = omega arith
  depth-le (Reply.int n) = omega arith
  depth-le (Reply.bulk b) = omega arith
  depth-le Reply.nil = omega arith
  depth-le (Reply.array rs) = omega (
    arith,
    length-append (write_array_header (pos (count rs))) (write_replies rs),
    length-header (count rs),
    depths-le rs,
  )
  depth-le Reply.nil_array = omega arith

  depths-le : (rs : Replies) → depths rs ≤ length (write_replies rs)
  depths-le Replies.end = omega arith
  depths-le (Replies.more r rs) =
      omega (arith, length-append (write_reply r) (write_replies rs), depth-le r, depths-le rs)

-- A reply whose texts stand on one line, whose numbers are 64 bits wide and whose bulks and arrays
-- are within what the client can make: from the front of a connection on which the server wrote
-- it, `ReadReply` gives the value of the reply, arrays in arrays included, and leaves the bytes
-- behind it.
pub read_reply-write_reply :
    (room value_room : ℕ) (r : Reply) (rest : Bytes)
    → Fits room value_room r
    → read_reply room value_room (write_reply r ++ rest) ≡ got (value_of r) rest
unfolding read_reply
read_reply-write_reply room value_room r rest h =
    read_nested-write_reply room value_room r (suc (length (write_reply r ++ rest))) rest h
      (omega (arith, length-append (write_reply r) rest, depth-le r))
