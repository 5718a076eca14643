-- ===== src/Persistence/Codec.antt =====
-- internal/persistence/codec.go: the records of the append-only file.
use dist_cache.Base.{
  ℕ, zero, suc, ◌+◌, ◌≤◌, ◌<◌, ◌≡◌, refl, ap, sym, ◌∙◌, [], ◌∷◌, ◌++◌, arith, Bytes, length, take,
  drop, length-append, take-length-append, drop-length-append, length-take-le, if◌then◌else◌, ltb,
  ◌⊎◌, inl, inr,
}
use dist_cache.Base.BigEndian.{put_u32, get_u32, get_u32-put_u32}
use dist_cache.Cache.Item.{Event}
use dist_cache.Cache.Wire.{
  Decoded, got, malformed, panicked, encode_payload, decode_payload, IsWire, length-encode_payload,
  decode_payload-encode_payload,
}

-- What `decodeRecord` gives: an event and the unread bytes, `io.EOF`, `errTornRecord`, or a panic.
pub data Reading : Type 0 where
  read : Event → Bytes → Reading
  at_end : Reading
  torn : Reading
  crashed : Reading

unfoldable pub encode_record : Event → Bytes
encode_record ev = put_u32 (25 + length ev.key + length ev.value) ++ encode_payload ev

unfoldable pub of_payload : Decoded Event → Bytes → Reading
of_payload (got ev) rest = read ev rest
of_payload malformed rest = torn
of_payload panicked rest = crashed

unfoldable pub read_payload : ℕ → Bytes → Reading
read_payload n bytes =
    if ltb n 25
    then torn
    else if ltb (length bytes) n
    then torn
    else of_payload (decode_payload (take n bytes)) (drop n bytes)

unfoldable pub decode_record : Bytes → Reading
unfolding read_payload of_payload
decode_record [] = at_end
decode_record (a ∷ b ∷ c ∷ d ∷ bytes) = read_payload (get_u32 (a ∷ b ∷ c ∷ d ∷ [])) bytes
decode_record _ = torn

read_payload-append :
    (p rest : Bytes)
    → 25 ≤ length p
    → read_payload (length p) (p ++ rest) ≡ of_payload (decode_payload p) rest
unfolding read_payload
read_payload-append p rest h =
    rw (take-length-append p rest, drop-length-append p rest, length-append p rest)
      (ground (arith, h))

pub read_payload-short : (n : ℕ) (bytes : Bytes) → length bytes < n → read_payload n bytes ≡ torn
unfolding read_payload
read_payload-short n bytes h = ground (arith, h)

module _ (ev : Event) where
  abbrev pub record_size : ℕ
  record_size = 25 + length ev.key + length ev.value

  pub length-encode_record : length (encode_record ev) ≡ 4 + record_size
  unfolding encode_record
  length-encode_record = omega (arith, length-encode_payload ev)

  module _ (w : IsWire ev) where
    pub record_length : get_u32 (put_u32 record_size) ≡ length (encode_payload ev)
    record_length = get_u32-put_u32 record_size [] w.short ∙ sym (length-encode_payload ev)

    -- The record of an event that fits its encoding is read back from in front of whatever bytes
    -- follow it, which are left to read.
    pub decode_record-encode_record :
        (rest : Bytes) → decode_record (encode_record ev ++ rest) ≡ read ev rest
    unfolding decode_record encode_record of_payload
    decode_record-encode_record rest =
        ap (λ n. read_payload n (encode_payload ev ++ rest)) record_length
        ∙ read_payload-append (encode_payload ev) rest (omega (arith, length-encode_payload ev))
        ∙ ap (λ d. of_payload d rest) (decode_payload-encode_payload ev w)

    -- The beginning of a record, cut short, is the end of the file or a torn record.
    pub decode_record-torn :
        (n : ℕ)
        → n < length (encode_record ev)
        → (decode_record (take n (encode_record ev)) ≡ at_end)
          ⊎ (decode_record (take n (encode_record ev)) ≡ torn)
    unfolding decode_record encode_record
    decode_record-torn zero h = inl refl
    decode_record-torn (suc zero) h = inr refl
    decode_record-torn (suc (suc zero)) h = inr refl
    decode_record-torn (suc (suc (suc zero))) h = inr refl
    decode_record-torn (suc (suc (suc (suc n)))) h =
        inr (read_payload-short _ (take n (encode_payload ev)) short)
      where
        short : length (take n (encode_payload ev)) < get_u32 (put_u32 record_size)
        short = omega (arith, h, record_length, length-take-le n (encode_payload ev))
