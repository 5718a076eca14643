-- ===== src/Resp/Progress.antt =====
-- The readers of resp.go come to an end, and what they read is taken off the connection.
use dist_cache.Base.{
  ◌⊎◌, subst, ℕ, zero, suc, ◌+◌, ◌<◌, ◌≤◌, ◌≡◌, refl, Bool-cases, Option-cases, inl, inr, [], ◌∷◌,
  Bytes, length, drop, ◌==◌, ltb, arith,
}
use dist_cache.Base.Int64.{pos, negsuc}
use dist_cache.Base.Decimal.{parse_int}
use dist_cache.Resp.{Read, got, cut_off, protocol_error, panicked, unfinished, read_line}
use dist_cache.Resp.Lines.{read_line-lt}
use dist_cache.Resp.Reader.{
  max_bulk_len, parse_inline, read_body, read_arg_of, read_arg, read_args, read_command_of,
  read_command_loop, read_command,
}

-- Within `n` bytes, the reader comes to an end, and leaves fewer of them when it gives a value.
abbrev pub Advances {ℓ} : {A : Type ℓ} → ℕ → Read A → Type 0
Advances n (got a rest) = length rest < n
Advances n cut_off = Unit
Advances n protocol_error = Unit
Advances n panicked = Unit
Advances n unfinished = ⊥

length-drop-le : (n : ℕ) (xs : Bytes) → length (drop n xs) ≤ length xs
length-drop-le zero xs = omega arith
length-drop-le (suc n) [] = omega arith
length-drop-le (suc n) (x ∷ xs) = omega (arith, length-drop-le n xs)

pub read_body-Advances :
    (n : ℕ) (bytes : Bytes) (m : ℕ) → length bytes < m → Advances m (read_body n bytes)
unfolding read_body
read_body-Advances n bytes m h = elim (Bool-cases (ltb (length bytes) (n + 2))) [
  | inl e ↦ rw (read_body, e) tt
  | inr e ↦ rw (read_body, e) (omega (arith, length-drop-le (n + 2) bytes))
]

read_arg_of-Advances :
    (line bytes : Bytes) (m : ℕ) → length bytes < m → Advances m (read_arg_of line bytes)
unfolding read_arg_of
read_arg_of-Advances [] bytes m h = tt
read_arg_of-Advances (c ∷ cs) bytes m h = elim (Bool-cases (c == b'$')) [
  | inr e ↦ rw (read_arg_of, e) tt
  | inl e ↦ elim (Option-cases (parse_int cs)) [
    | inl f ↦ rw (read_arg_of, e, f) tt
    | inr (negsuc n, f) ↦ rw (read_arg_of, e, f) tt
    | inr (pos n, f) ↦ elim (Bool-cases (ltb max_bulk_len n)) [
      | inl g ↦ rw (read_arg_of, e, f, g) tt
      | inr g ↦ rw (read_arg_of, e, f, g) (read_body-Advances n bytes m h)
    ]
  ]
]

read_arg-Advances : (bytes : Bytes) → Advances (length bytes) (read_arg bytes)
unfolding read_arg
read_arg-Advances bytes = elim (Option-cases (read_line bytes)) [
  | inl e ↦ rw (read_arg, e) tt
  | inr ((line, rest), e) ↦
      rw (read_arg, e)
        (read_arg_of-Advances line rest (length bytes) (read_line-lt bytes line rest e))
]

pub Read-cases :
    {A : Type 0} (r : Read A)
    → ((a : A) × (rest : Bytes) × (r ≡ got a rest))
      ⊎ ((r ≡ cut_off) ⊎ ((r ≡ protocol_error) ⊎ ((r ≡ panicked) ⊎ (r ≡ unfinished))))
Read-cases (got a rest) = inl (a, rest, refl)
Read-cases cut_off = inr (inl refl)
Read-cases protocol_error = inr (inr (inl refl))
Read-cases panicked = inr (inr (inr (inl refl)))
Read-cases unfinished = inr (inr (inr (inr refl)))

read_args-Advances :
    (n : ℕ) (bytes : Bytes) (m : ℕ) → length bytes < m → Advances m (read_args n bytes)
unfolding read_args
read_args-Advances zero bytes m h = h
read_args-Advances (suc n) bytes m h = elim (Read-cases (read_arg bytes)) [
  | inl (a, rest, e) ↦
      let ih : Advances m (read_args n rest) =
        read_args-Advances n rest m
          (omega (arith, subst (Advances (length bytes)) e (read_arg-Advances bytes))) in
      elim (Read-cases (read_args n rest)) [
        | inl (args, rest', f) ↦ rw (read_args, e, f) (subst (Advances m) f ih)
        | inr (inl f) ↦ rw (read_args, e, f) tt
        | inr (inr (inl f)) ↦ rw (read_args, e, f) tt
        | inr (inr (inr (inl f))) ↦ rw (read_args, e, f) tt
        | inr (inr (inr (inr f))) ↦ absurd (subst (Advances m) f ih)
      ]
  | inr (inl e) ↦ rw (read_args, e) tt
  | inr (inr (inl e)) ↦ rw (read_args, e) tt
  | inr (inr (inr (inl e))) ↦ rw (read_args, e) tt
  | inr (inr (inr (inr e))) ↦ absurd (subst (Advances (length bytes)) e (read_arg-Advances bytes))
]

module _ (room : ℕ) where
  read_command_of-Advances :
      (c : ℕ) (cs bytes : Bytes) (m : ℕ)
      → length bytes < m
      → Advances m (read_command_of room c cs bytes)
  unfolding read_command_of
  read_command_of-Advances c cs bytes m h = elim (Bool-cases (c == b'*')) [
    | inr e ↦ elim (Option-cases (parse_inline (c ∷ cs))) [
      | inl f ↦ rw (read_command_of, e, f) tt
      | inr (args, f) ↦ rw (read_command_of, e, f) h
    ]
    | inl e ↦ elim (Option-cases (parse_int cs)) [
      | inl f ↦ rw (read_command_of, e, f) tt
      | inr (negsuc n, f) ↦ rw (read_command_of, e, f) tt
      | inr (pos n, f) ↦ elim (Bool-cases (ltb room n)) [
        | inl g ↦ rw (read_command_of, e, f, g) tt
        | inr g ↦ rw (read_command_of, e, f, g) (read_args-Advances n bytes m h)
      ]
    ]
  ]

  read_command_loop-Advances :
      (fuel : ℕ) (bytes : Bytes) (m : ℕ)
      → length bytes < fuel
      → length bytes ≤ m
      → Advances m (read_command_loop room fuel bytes)
  unfolding read_command_loop
  read_command_loop-Advances zero bytes m h k = absurd (omega arith)
  read_command_loop-Advances (suc fuel) bytes m h k = elim (Option-cases (read_line bytes)) [
    | inl e ↦ rw (read_command_loop, e) tt
    | inr (([], rest), e) ↦
        rw (read_command_loop, e)
          (read_command_loop-Advances fuel rest m (omega (arith, read_line-lt bytes [] rest e))
            (omega (arith, read_line-lt bytes [] rest e)))
    | inr ((c ∷ cs, rest), e) ↦
        rw (read_command_loop, e)
          (read_command_of-Advances c cs rest m (omega (arith, read_line-lt bytes (c ∷ cs) rest e)))
  ]

pub read_command-Advances :
    (room : ℕ) (bytes : Bytes) → Advances (length bytes) (read_command room bytes)
unfolding read_command
read_command-Advances room bytes =
    read_command_loop-Advances room (suc (length bytes)) bytes (length bytes) (omega arith)
      (omega arith)
