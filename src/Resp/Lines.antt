-- ===== src/Resp/Lines.antt =====
-- `readLine` of resp.go: a clean line is read back, and every line that is read shortens the
-- connection.
use dist_cache.Base.{
  ℕ, zero, suc, ◌+◌, ◌/◌, ◌%◌, ◌<◌, ◌≡◌, ◌≢◌, refl, Bool-cases, Option-cases, inl, inr, some, [],
  ◌∷◌, ◌++◌, Bytes, length, ◌==◌, ltb, All, arith,
}
use dist_cache.Base.Int64.{ℤ, pos, negsuc}
use dist_cache.Base.Decimal.{digits, format_nat, format_int}
use dist_cache.Resp.{cut_line, trim_crlf, read_line}

abbrev pub IsClean : Bytes → Type 0
IsClean line = All (λ c. (c ≢ 10) × (c ≢ 13)) line

cut_line-crlf :
    (line rest : Bytes)
    → IsClean line
    → cut_line (line ++ 13 ∷ 10 ∷ rest) ≡ some (line ++ 13 ∷ 10 ∷ [], rest)
unfolding cut_line
cut_line-crlf [] rest h = refl
cut_line-crlf (c ∷ cs) rest h = ground (arith, cut_line-crlf cs rest h.1)

trim_crlf-clean : (line : Bytes) → IsClean line → trim_crlf (line ++ 13 ∷ 10 ∷ []) ≡ line
unfolding trim_crlf
trim_crlf-clean [] h = refl
trim_crlf-clean (c ∷ []) h = ground arith
trim_crlf-clean (c ∷ d ∷ ds) h = ground (arith, trim_crlf-clean (d ∷ ds) h.1)

-- A line without line feeds and carriage returns is read back.
pub read_line-crlf :
    (line rest : Bytes) → IsClean line → read_line (line ++ 13 ∷ 10 ∷ rest) ≡ some (line, rest)
unfolding read_line
read_line-crlf line rest h = rw (read_line, cut_line-crlf line rest h, trim_crlf-clean line h) refl

cut_line-lt :
    (bytes line rest : Bytes) → cut_line bytes ≡ some (line, rest) → length rest < length bytes
unfolding cut_line
cut_line-lt [] line rest e = absurd (ground arith)
cut_line-lt (c ∷ cs) line rest e = elim (Bool-cases (c == 10)) [
  | inl eq ↦ ground arith
  | inr ne ↦ elim (Option-cases (cut_line cs)) [
    | inl f ↦ absurd (ground arith)
    | inr ((line', rest'), f) ↦ ground (arith, cut_line-lt cs line' rest' f)
  ]
]

-- A line that is read leaves less to read.
pub read_line-lt :
    (bytes line rest : Bytes) → read_line bytes ≡ some (line, rest) → length rest < length bytes
unfolding read_line
read_line-lt bytes line rest e = elim (Option-cases (cut_line bytes)) [
  | inl f ↦ absurd (ground arith)
  | inr ((line', rest'), f) ↦ ground (arith, cut_line-lt bytes line' rest' f)
]

All-append : (xs ys : Bytes) → IsClean xs → IsClean ys → IsClean (xs ++ ys)
All-append [] ys h k = k
All-append (x ∷ xs) ys h k = (h.0, All-append xs ys h.1 k)

digits-IsClean : (f n : ℕ) → IsClean (digits f n)
unfolding digits
digits-IsClean zero n = tt
digits-IsClean (suc f) n = elim (Bool-cases (ltb n 10)) [
  | inl e ↦ rw e ((omega arith, omega arith), tt)
  | inr e ↦ rw e (
      All-append (digits f (n / 10)) ((48 + n % 10) ∷ []) (digits-IsClean f (n / 10))
        ((omega arith, omega arith), tt))
]

pub format_int-IsClean : (a : ℤ) → IsClean (format_int a)
unfolding format_int format_nat
format_int-IsClean (pos n) = digits-IsClean 20 n
format_int-IsClean (negsuc n) = ((omega arith, omega arith), digits-IsClean 20 (n + 1))
