-- ===== src/Persistence/Aof/Recovery.antt =====
-- What a pass over the append-only file recovers.
use dist_cache.Base.{
  ℕ, zero, suc, ◌+◌, ◌-◌, ◌<◌, ◌≡◌, refl, ap, sym, ◌∙◌, subst, List, [], ◌∷◌, ◌++◌, arith, Bytes,
  length, take, All, length-append, take-append-lt, take-append-add, ltb, ltb→lt, Bool-cases, inl,
  inr,
}
use dist_cache.Cache.Item.{Event}
use dist_cache.Cache.Wire.{IsWire}
use dist_cache.Persistence.Codec.{
  read, at_end, torn, encode_record, decode_record, length-encode_record,
  decode_record-encode_record, decode_record-torn,
}
use dist_cache.Persistence.Aof.{ended, scan, with_event, read_loop, read_aof, log_of}

pub ++-assoc : (xs ys zs : Bytes) → (xs ++ ys) ++ zs ≡ xs ++ (ys ++ zs)
++-assoc [] ys zs = refl
++-assoc (x ∷ xs) ys zs = ap (◌∷◌ x) (++-assoc xs ys zs)

pub step-read :
    {ev : Event} {rest : Bytes} (fuel : ℕ) (bytes : Bytes)
    → decode_record bytes ≡ read ev rest
    → read_loop (suc fuel) bytes ≡ with_event ev (read_loop fuel rest)
unfolding read_loop
step-read fuel bytes e = rw (read_loop, e) refl

pub step-at_end :
    (fuel : ℕ) (bytes : Bytes)
    → decode_record bytes ≡ at_end
    → read_loop (suc fuel) bytes ≡ scan [] ended
unfolding read_loop
step-at_end fuel bytes e = rw (read_loop, e) refl

pub step-torn :
    (fuel : ℕ) (bytes : Bytes)
    → decode_record bytes ≡ torn
    → read_loop (suc fuel) bytes ≡ scan [] ended
unfolding read_loop
step-torn fuel bytes e = rw (read_loop, e) refl

pub read_record :
    {ev : Event}
    → IsWire ev
    → (fuel : ℕ) (rest : Bytes)
    → read_loop (suc fuel) (encode_record ev ++ rest) ≡ with_event ev (read_loop fuel rest)
read_record {ev} w fuel rest = step-read fuel _ (decode_record-encode_record ev w rest)

-- What a pass reads of a file that holds some whole events of `evs` and then the beginning of
-- another.
abbrev pub IsPrefixRead : List Event → ℕ → Bytes → Type 0
IsPrefixRead evs fuel bytes = (k : ℕ) × (read_loop fuel bytes ≡ scan (take k evs) ended)

module _ {ev : Event} (w : IsWire ev) (evs : List Event) (fuel : ℕ) where
  prefix-short :
      (n : ℕ)
      → n < length (encode_record ev)
      → IsPrefixRead (ev ∷ evs) (suc fuel) (take n (encode_record ev ++ log_of evs))
  prefix-short n h =
      subst (IsPrefixRead (ev ∷ evs) (suc fuel))
        (sym (take-append-lt n (encode_record ev) (log_of evs) h))
        (
          0,
          elim (decode_record-torn ev w n h) [
            | inl e ↦ step-at_end fuel _ e
            | inr e ↦ step-torn fuel _ e
          ],
        )

  prefix-long :
      (n : ℕ)
      → IsPrefixRead evs fuel (take n (log_of evs))
      → IsPrefixRead
          (ev ∷ evs)
          (suc fuel)
          (take (length (encode_record ev) + n) (encode_record ev ++ log_of evs))
  prefix-long n (k, e) =
      subst (IsPrefixRead (ev ∷ evs) (suc fuel))
        (sym (take-append-add n (encode_record ev) (log_of evs)))
        (suc k, read_record w fuel (take n (log_of evs)) ∙ ap (with_event ev) e)

  prefix-fuel :
      (n m : ℕ)
      → n ≡ length (encode_record ev) + m
      → length (take n (encode_record ev ++ log_of evs)) < suc fuel
      → length (take m (log_of evs)) < fuel
  prefix-fuel n m e h = omega (
    arith,
    h,
    ap (λ k. length (take k (encode_record ev ++ log_of evs))) e,
    ap length (take-append-add m (encode_record ev) (log_of evs)),
    length-append (encode_record ev) (take m (log_of evs)),
    length-encode_record ev,
  )

at_end-nil : (n : ℕ) → decode_record (take n []) ≡ at_end
unfolding decode_record
at_end-nil zero = refl
at_end-nil (suc n) = refl

-- Of a log that is cut short anywhere, the whole records are read.
pub read_loop-prefix :
    (evs : List Event)
    → All IsWire evs
    → (n fuel : ℕ) → length (take n (log_of evs)) < fuel
    → IsPrefixRead evs fuel (take n (log_of evs))
unfolding log_of
read_loop-prefix [] ws n zero h = absurd (omega (arith, h))
read_loop-prefix (ev ∷ evs) (w, ws) n zero h = absurd (omega (arith, h))
read_loop-prefix [] ws n (suc fuel) h = (0, step-at_end fuel _ (at_end-nil n))
read_loop-prefix (ev ∷ evs) (w, ws) n (suc fuel) h =
    elim (Bool-cases (ltb n (length (encode_record ev)))) [
      | inl c ↦ prefix-short w evs fuel n (ltb→lt _ _ c)
      | inr c ↦
          let m : ℕ = n - length (encode_record ev) in
          let e : n ≡ length (encode_record ev) + m = ground arith in
          subst (λ k. IsPrefixRead (ev ∷ evs) (suc fuel) (take k (log_of (ev ∷ evs)))) (sym e)
            (prefix-long w evs fuel m
              (read_loop-prefix evs ws m fuel (prefix-fuel w evs fuel n m e h)))
    ]

read_loop-log_of :
    (evs : List Event)
    → All IsWire evs
    → (fuel : ℕ) → length (log_of evs) < fuel
    → read_loop fuel (log_of evs) ≡ scan evs ended
unfolding log_of
read_loop-log_of [] ws zero h = absurd (omega (arith, h))
read_loop-log_of (ev ∷ evs) (w, ws) zero h = absurd (omega (arith, h))
read_loop-log_of [] ws (suc fuel) h = step-at_end fuel [] (at_end-nil 0)
read_loop-log_of (ev ∷ evs) (w, ws) (suc fuel) h =
    read_record w fuel (log_of evs)
    ∙ ap (with_event ev) (
        read_loop-log_of evs ws fuel (
          omega (arith, h, length-append (encode_record ev) (log_of evs), length-encode_record ev)))

-- A pass over the log of events that fit their encoding reads those events.
pub read_aof-log_of : (evs : List Event) → All IsWire evs → read_aof (log_of evs) ≡ scan evs ended
unfolding read_aof
read_aof-log_of evs ws = read_loop-log_of evs ws _ (omega arith)

-- A pass over a log that is cut short after any number of bytes reads a prefix of the events.
pub read_aof-prefix :
    (evs : List Event)
    → All IsWire evs
    → (n : ℕ) → (k : ℕ) × (read_aof (take n (log_of evs)) ≡ scan (take k evs) ended)
unfolding read_aof
read_aof-prefix evs ws n = read_loop-prefix evs ws n _ (omega arith)
