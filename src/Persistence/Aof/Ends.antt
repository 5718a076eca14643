-- ===== src/Persistence/Aof/Ends.antt =====
-- The loop of `ReadAOF` comes to an end on any file.
use dist_cache.Base.{
  ℕ, zero, suc, ◌≤◌, ◌<◌, ◌≡◌, ◌≢◌, refl, Bool-cases, inl, inr, ◌⊎◌, subst, sym, ltb, [], ◌∷◌,
  arith, Bytes, length, take, drop,
}
use dist_cache.Cache.Item.{Event}
use dist_cache.Cache.Wire.{Decoded, decode_payload}
use dist_cache.Persistence.Codec.{
  Reading, read, at_end, torn, crashed, decode_record, read_payload, of_payload,
}
use dist_cache.Persistence.Aof.{Scan, scan, died, unfinished, read_loop, read_aof}
use dist_cache.Persistence.Aof.Recovery.{step-read, step-at_end, step-torn}

Reading-cases :
    (r : Reading)
    → ((ev : Event) × (rest : Bytes) × (r ≡ read ev rest))
      ⊎ (r ≡ at_end)
      ⊎ (r ≡ torn)
      ⊎ (r ≡ crashed)
Reading-cases (read ev rest) = inl (ev, rest, refl)
Reading-cases at_end = inr (inl refl)
Reading-cases torn = inr (inr (inl refl))
Reading-cases crashed = inr (inr (inr refl))

step-crashed :
    (fuel : ℕ) (bytes : Bytes)
    → decode_record bytes ≡ crashed
    → read_loop (suc fuel) bytes ≡ scan [] died
unfolding read_loop
step-crashed fuel bytes e = rw (read_loop, e) refl

-- What is left to read after a record is less than `n` bytes.
LeavesLess : ℕ → Reading → Type 0
LeavesLess n (read ev rest) = length rest < n
LeavesLess n at_end = Unit
LeavesLess n torn = Unit
LeavesLess n crashed = Unit

length-drop-le : (n : ℕ) (xs : Bytes) → length (drop n xs) ≤ length xs
length-drop-le zero xs = omega arith
length-drop-le (suc n) [] = omega arith
length-drop-le (suc n) (x ∷ xs) = omega (arith, length-drop-le n xs)

of_payload-LeavesLess :
    (m : ℕ) (d : Decoded Event) (rest : Bytes) → length rest < m → LeavesLess m (of_payload d rest)
unfolding of_payload LeavesLess
of_payload-LeavesLess m (Decoded.got ev) rest h = h
of_payload-LeavesLess m Decoded.malformed rest h = tt
of_payload-LeavesLess m Decoded.panicked rest h = tt

read_payload-LeavesLess :
    (m n : ℕ) (bytes : Bytes) → length bytes < m → LeavesLess m (read_payload n bytes)
unfolding read_payload LeavesLess
read_payload-LeavesLess m n bytes h = elim (Bool-cases (ltb n 25)) [
  | inl e ↦ rw e tt
  | inr e ↦ elim (Bool-cases (ltb (length bytes) n)) [
    | inl f ↦ rw (e, f) tt
    | inr f ↦
        rw (e, f)
          (of_payload-LeavesLess _ (decode_payload (take n bytes)) (drop n bytes)
            (omega (arith, h, length-drop-le n bytes)))
  ]
]

decode_record-LeavesLess : (bytes : Bytes) → LeavesLess (length bytes) (decode_record bytes)
unfolding decode_record LeavesLess
decode_record-LeavesLess [] = tt
decode_record-LeavesLess (a ∷ []) = tt
decode_record-LeavesLess (a ∷ b ∷ []) = tt
decode_record-LeavesLess (a ∷ b ∷ c ∷ []) = tt
decode_record-LeavesLess (a ∷ b ∷ c ∷ d ∷ bytes) = read_payload-LeavesLess _ _ bytes (omega arith)

Ends : Scan → Type 0
Ends s = s.ending ≢ unfinished

read_loop-Ends : (fuel : ℕ) (bytes : Bytes) → length bytes < fuel → Ends (read_loop fuel bytes)
unfolding Ends LeavesLess
read_loop-Ends zero bytes h = absurd (omega (arith, h))
read_loop-Ends (suc fuel) bytes h = elim (Reading-cases (decode_record bytes)) [
  | inl (ev, rest, e) ↦
      subst Ends (sym (step-read fuel bytes e))
        (read_loop-Ends fuel rest (omega (arith, h, shorter ev rest e)))
  | inr (inl e) ↦ subst Ends (sym (step-at_end fuel bytes e)) (ground arith)
  | inr (inr (inl e)) ↦ subst Ends (sym (step-torn fuel bytes e)) (ground arith)
  | inr (inr (inr e)) ↦ subst Ends (sym (step-crashed fuel bytes e)) (ground arith)
]
  where
    shorter :
        (ev : Event) (rest : Bytes)
        → decode_record bytes ≡ read ev rest
        → length rest < length bytes
    shorter ev rest e = subst (LeavesLess (length bytes)) e (decode_record-LeavesLess bytes)

-- On any file, whole or corrupt, the pass over it comes to an end.
pub read_aof_ends : (bytes : Bytes) → (read_aof bytes).ending ≢ unfinished
unfolding read_aof Ends
read_aof_ends bytes = read_loop-Ends _ bytes (omega arith)
