-- ===== src/Resp/Value/Ends.antt =====
-- Both readers of internal/resp come to an end on any bytes.
use dist_cache.Base.{
  subst, ℕ, zero, suc, ◌+◌, ◌<◌, Bool-cases, Option-cases, inl, inr, [], ◌∷◌, Bytes, length, ◌==◌,
  ltb, arith,
}
use dist_cache.Base.Int64.{pos, negsuc}
use dist_cache.Base.Decimal.{parse_int}
use dist_cache.Resp.{Read, got, cut_off, protocol_error, panicked, unfinished, read_line}
use dist_cache.Resp.Lines.{read_line-lt}
use dist_cache.Resp.Reader.{read_body, read_command}
use dist_cache.Resp.Progress.{Advances, Read-cases, read_body-Advances, read_command-Advances}
use dist_cache.Resp.Value.{
  Value, Values, read_values, read_bulk, read_array, read_typed, read_nested, read_reply, put_first,
  as_array, with_value,
}

with_value-Advances :
    (f : Bytes → Value) (m : ℕ) (r : Read Bytes) → Advances m r → Advances m (with_value f r)
with_value-Advances f m (got b rest) h = h
with_value-Advances f m cut_off h = tt
with_value-Advances f m protocol_error h = tt
with_value-Advances f m panicked h = tt
with_value-Advances f m unfinished h = h

as_array-Advances : (m : ℕ) (r : Read Values) → Advances m r → Advances m (as_array r)
as_array-Advances m (got b rest) h = h
as_array-Advances m cut_off h = tt
as_array-Advances m protocol_error h = tt
as_array-Advances m panicked h = tt
as_array-Advances m unfinished h = h

put_first-Advances :
    (v : Value) (m : ℕ) (r : Read Values) → Advances m r → Advances m (put_first v r)
put_first-Advances v m (got b rest) h = h
put_first-Advances v m cut_off h = tt
put_first-Advances v m protocol_error h = tt
put_first-Advances v m panicked h = tt
put_first-Advances v m unfinished h = h

module _ (read : Bytes → Read Value) (m : ℕ)
    (step : (bytes : Bytes) → length bytes < m → Advances (length bytes) (read bytes)) where
  read_values-Advances :
      (n : ℕ) (bytes : Bytes) → length bytes < m → Advances m (read_values read n bytes)
  unfolding read_values
  read_values-Advances zero bytes h = h
  read_values-Advances (suc n) bytes h = elim (Read-cases (read bytes)) [
    | inl (v, rest, e) ↦
        rw (read_values, e)
          (put_first-Advances v m (read_values read n rest) (
            read_values-Advances n rest
              (omega (arith, h, subst (Advances (length bytes)) e (step bytes h)))))
    | inr (inl e) ↦ rw (read_values, e) tt
    | inr (inr (inl e)) ↦ rw (read_values, e) tt
    | inr (inr (inr (inl e))) ↦ rw (read_values, e) tt
    | inr (inr (inr (inr e))) ↦ absurd (subst (Advances (length bytes)) e (step bytes h))
  ]

module _ (room value_room : ℕ) where
  read_bulk-Advances :
      (line bytes : Bytes) (m : ℕ)
      → length bytes < m
      → Advances m (read_bulk room value_room line bytes)
  unfolding read_bulk
  read_bulk-Advances line bytes m h = elim (Option-cases (parse_int line)) [
    | inl f ↦ rw (read_bulk, f) tt
    | inr (negsuc n, f) ↦ rw (read_bulk, f) h
    | inr (pos n, f) ↦ elim (Bool-cases (ltb room (n + 2))) [
      | inl g ↦ rw (read_bulk, f, g) tt
      | inr g ↦
          rw (read_bulk, f, g)
            (with_value-Advances Value.bulk m (read_body n bytes) (read_body-Advances n bytes m h))
    ]
  ]

  module _ (read : Bytes → Read Value) (m : ℕ)
      (step : (bytes : Bytes) → length bytes < m → Advances (length bytes) (read bytes)) where
    read_array-Advances :
        (line bytes : Bytes)
        → length bytes < m
        → Advances m (read_array room value_room read line bytes)
    unfolding read_array
    read_array-Advances line bytes h = elim (Option-cases (parse_int line)) [
      | inl f ↦ rw (read_array, f) tt
      | inr (negsuc n, f) ↦ rw (read_array, f) h
      | inr (pos n, f) ↦ elim (Bool-cases (ltb value_room n)) [
        | inl g ↦ rw (read_array, f, g) tt
        | inr g ↦
            rw (read_array, f, g)
              (as_array-Advances m (read_values read n bytes)
                (read_values-Advances read m step n bytes h))
      ]
    ]

    read_typed-Advances :
        (typ : ℕ) (line bytes : Bytes)
        → length bytes < m
        → Advances m (read_typed room value_room read typ line bytes)
    unfolding read_typed
    read_typed-Advances typ line bytes h = elim (Bool-cases (typ == b'+')) [
      | inl a ↦ rw (read_typed, a) h
      | inr a ↦ elim (Bool-cases (typ == b'-')) [
        | inl b ↦ rw (read_typed, a, b) h
        | inr b ↦ elim (Bool-cases (typ == b':')) [
          | inl c ↦ elim (Option-cases (parse_int line)) [
            | inl f ↦ rw (read_typed, a, b, c, f) tt
            | inr (n, f) ↦ rw (read_typed, a, b, c, f) h
          ]
          | inr c ↦ elim (Bool-cases (typ == b'$')) [
            | inl d ↦ rw (read_typed, a, b, c, d) (read_bulk-Advances line bytes m h)
            | inr d ↦ elim (Bool-cases (typ == b'*')) [
              | inl e ↦ rw (read_typed, a, b, c, d, e) (read_array-Advances line bytes h)
              | inr e ↦ rw (read_typed, a, b, c, d, e) tt
            ]
          ]
        ]
      ]
    ]

  read_nested-Advances :
      (fuel : ℕ) (bytes : Bytes)
      → length bytes < fuel
      → Advances (length bytes) (read_nested room value_room fuel bytes)
  unfolding read_nested
  read_nested-Advances zero bytes h = absurd (omega arith)
  read_nested-Advances (suc fuel) bytes h = elim (Option-cases (read_line bytes)) [
    | inl e ↦ rw (read_nested, e) tt
    | inr (([], rest), e) ↦ rw (read_nested, e) tt
    | inr ((c ∷ cs, rest), e) ↦
        rw (read_nested, e)
          (read_typed-Advances (read_nested room value_room fuel) (length bytes)
            (λ b lt. read_nested-Advances fuel b (omega (arith, lt, h))) c cs rest
            (read_line-lt bytes (c ∷ cs) rest e))
  ]

-- For any bytes on the connection and any limits on what can be made, `ReadCommand` and
-- `ReadReply` come to an end; when one gives a command or a value, fewer bytes are left to read
-- than there were.
pub readers_end :
    (room value_room : ℕ) (bytes : Bytes)
    → Advances (length bytes) (read_command room bytes)
      × Advances (length bytes) (read_reply room value_room bytes)
unfolding read_reply
readers_end room value_room bytes = (
  read_command-Advances room bytes,
  read_nested-Advances room value_room (suc (length bytes)) bytes (omega arith),
)
