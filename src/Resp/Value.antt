-- ===== src/Resp/Value.antt =====
-- reply.go: what a client reads. A `Value` is its type byte with the fields that go with it.
pub mod Ends
use dist_cache.Base.{
  ℕ, zero, suc, ◌+◌, ◌^◌, Bool, Option, none, some, [], ◌∷◌, Bytes, length, if◌then◌else◌, ltb,
  ◌==◌,
}
use dist_cache.Base.Decimal.{parse_int}
use dist_cache.Base.Int64.{ℤ, pos, negsuc}
use dist_cache.Resp.{Read, got, cut_off, protocol_error, panicked, unfinished, read_line}
use dist_cache.Resp.Reader.{read_body}

mutual
  pub data Value : Type 0 where
    simple : Bytes → Value
    error : Bytes → Value
    int : ℤ → Value
    bulk : Bytes → Value
    nil_bulk : Value
    array : Values → Value
    nil_array : Value

  pub data Values : Type 0 where
    end : Values
    more : Value → Values → Values

-- A value made of what was read.
abbrev pub with_value : (Bytes → Value) → Read Bytes → Read Value
with_value f (got b rest) = got (f b) rest
with_value f cut_off = cut_off
with_value f protocol_error = protocol_error
with_value f panicked = panicked
with_value f unfinished = unfinished

abbrev pub as_array : Read Values → Read Value
as_array (got vs rest) = got (array vs) rest
as_array cut_off = cut_off
as_array protocol_error = protocol_error
as_array panicked = panicked
as_array unfinished = unfinished

abbrev pub put_first : Value → Read Values → Read Values
put_first v (got vs rest) = got (more v vs) rest
put_first v cut_off = cut_off
put_first v protocol_error = protocol_error
put_first v panicked = panicked
put_first v unfinished = unfinished

-- The loop over the elements of an array, for the recursive call `read`.
unfoldable pub read_values : (Bytes → Read Value) → ℕ → Bytes → Read Values
read_values read zero bytes = got end bytes
read_values read (suc n) bytes = elim (read bytes) as (λ _. Read Values) [
  | got v rest ↦ put_first v (read_values read n rest)
  | cut_off ↦ cut_off
  | protocol_error ↦ protocol_error
  | panicked ↦ panicked
  | unfinished ↦ unfinished
]

-- The largest slice of bytes, and of values, that can be made: the Go run time panics at a larger
-- one.
module _ (room value_room : ℕ) where
  unfoldable pub read_bulk : Bytes → Bytes → Read Value
  unfolding read_body
  read_bulk number rest = elim (parse_int number) as (λ _. Read Value) [
    | none ↦ protocol_error
    | some (negsuc n) ↦ got nil_bulk rest
    | some (pos n) ↦ if ltb room (n + 2) then panicked else with_value bulk (read_body n rest)
  ]

  unfoldable pub read_array : (Bytes → Read Value) → Bytes → Bytes → Read Value
  unfolding read_values
  read_array read number rest = elim (parse_int number) as (λ _. Read Value) [
    | none ↦ protocol_error
    | some (negsuc n) ↦ got nil_array rest
    | some (pos n) ↦ if ltb value_room n then panicked else as_array (read_values read n rest)
  ]

  -- `ReadReply` from its line on: the type byte, the rest of the line, and what is left to read.
  unfoldable pub read_typed : (Bytes → Read Value) → ℕ → Bytes → Bytes → Read Value
  unfolding read_bulk read_array
  read_typed read typ line rest =
      if typ == b'+'
      then got (simple line) rest
      else if typ == b'-'
      then got (error line) rest
      else if typ == b':'
      then (elim (parse_int line) as (λ _. Read Value) [
        | none ↦ protocol_error
        | some n ↦ got (int n) rest
      ])
      else if typ == b'$'
      then read_bulk line rest
      else if typ == b'*'
      then read_array read line rest
      else protocol_error

  -- Fuel for the depth of the arrays, each of which takes a line.
  unfoldable pub read_nested : ℕ → Bytes → Read Value
  unfolding read_typed
  read_nested zero bytes = unfinished
  read_nested (suc fuel) bytes = elim (read_line bytes) as (λ _. Read Value) [
    | none ↦ cut_off
    | some ([], rest) ↦ protocol_error
    | some (typ ∷ line, rest) ↦ read_typed (read_nested fuel) typ line rest
  ]

  unfoldable pub read_reply : Bytes → Read Value
  unfolding read_nested
  read_reply bytes = read_nested (suc (length bytes)) bytes
