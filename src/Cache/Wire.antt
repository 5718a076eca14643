-- ===== src/Cache/Wire.antt =====
-- The byte layout of an event, which internal/persistence/codec.go and
-- internal/replication/codec.go write and read with the same statements.
use dist_cache.Base.{
  ℕ, ◌+◌, ◌%◌, ◌^◌, ◌<◌, ◌≡◌, ap, ◌∙◌, [], ◌∷◌, ◌++◌, arith, Bytes, length, take, drop,
  length-append, take-length-append, drop-length-append, drop-add, take-all, if◌then◌else◌, ltb,
  ◌==◌, not,
}
use dist_cache.Base.BigEndian.{put_u32, put_u64, get_u32, get_u64, get_u32-put_u32, get_u64-put_u64}
use dist_cache.Base.Int64.{to_bits, of_bits, IsInt64, of_bits-to_bits, to_bits-lt}
use dist_cache.Cache.Item.{Event}

-- A slice expression out of range panics.
pub data Decoded {ℓ} (A : Type ℓ) : Type ℓ where
  got : A → Decoded A
  malformed : Decoded A
  panicked : Decoded A

abbrev pub header_bytes : ℕ
header_bytes = 25

-- The operation's byte, the sequence number, the two lengths, the expiry time, the key and the
-- value. `PutUint32` keeps the low 32 bits of a length.
unfoldable pub encode_payload : Event → Bytes
encode_payload ev =
    (ev.op % 256)
    ∷ (put_u64 ev.seq
        ++ (put_u32 (length ev.key)
            ++ (put_u32 (length ev.value)
                ++ (put_u64 (to_bits ev.expire_at) ++ (ev.key ++ ev.value)))))

abbrev pub key_len : Bytes → ℕ
key_len p = get_u32 (drop 9 p)

abbrev pub value_len : Bytes → ℕ
value_len p = get_u32 (drop 13 p)

abbrev first_byte : Bytes → ℕ
first_byte [] = 0
first_byte (b ∷ _) = b

-- From the lengths on, for a payload of at least `header_bytes` bytes. The sum of the lengths is
-- taken in 32 bits.
unfoldable pub decode_payload : Bytes → Decoded Event
decode_payload p =
    if not (length p % 2 ^ 32 == (header_bytes + key_len p + value_len p) % 2 ^ 32)
    then malformed
    else if ltb (length p) (25 + key_len p)
    then panicked
    else if ltb (length p) (25 + key_len p + value_len p)
    then panicked
    else got (record {
      op = first_byte p;
      seq = get_u64 (drop 1 p);
      expire_at = of_bits (get_u64 (drop 17 p));
      key = take (key_len p) (drop 25 p);
      value = take (value_len p) (drop (25 + key_len p) p);
    })

-- The values that the fields of an event can have, for a record that its length field can hold.
pub record IsWire (ev : Event) : Type 0 where
  pub byte : ev.op < 256
  pub seq64 : ev.seq < 2 ^ 64
  pub time64 : IsInt64 ev.expire_at
  pub short : 25 + length ev.key + length ev.value < 2 ^ 32

module _ (ev : Event) where
  pub length-encode_payload : length (encode_payload ev) ≡ 25 + length ev.key + length ev.value
  unfolding encode_payload
  length-encode_payload = omega (arith, length-append ev.key ev.value)

  module _ (w : IsWire ev) where
    key_len-encode_payload : key_len (encode_payload ev) ≡ length ev.key
    unfolding encode_payload
    key_len-encode_payload = get_u32-put_u32 (length ev.key) [] (omega (arith, w.short))

    value_len-encode_payload : value_len (encode_payload ev) ≡ length ev.value
    unfolding encode_payload
    value_len-encode_payload = get_u32-put_u32 (length ev.value) [] (omega (arith, w.short))

    key-encode_payload : take (length ev.key) (drop 25 (encode_payload ev)) ≡ ev.key
    unfolding encode_payload
    key-encode_payload = take-length-append ev.key ev.value

    seq-encode_payload : get_u64 (drop 1 (encode_payload ev)) ≡ ev.seq
    unfolding encode_payload
    seq-encode_payload = get_u64-put_u64 ev.seq [] w.seq64

    time-encode_payload : of_bits (get_u64 (drop 17 (encode_payload ev))) ≡ ev.expire_at
    unfolding encode_payload
    time-encode_payload =
        ap of_bits
          (get_u64-put_u64 (to_bits ev.expire_at) (ev.key ++ ev.value) (to_bits-lt ev.expire_at))
        ∙ of_bits-to_bits ev.expire_at w.time64

    op-encode_payload : first_byte (encode_payload ev) ≡ ev.op
    unfolding encode_payload
    op-encode_payload = omega (arith, w.byte)

    tail-encode_payload : drop (length ev.key) (drop 25 (encode_payload ev)) ≡ ev.value
    unfolding encode_payload
    tail-encode_payload = drop-length-append ev.key ev.value

    value-encode_payload :
        take (length ev.value) (drop (25 + length ev.key) (encode_payload ev)) ≡ ev.value
    value-encode_payload =
        ap (take (length ev.value))
          (drop-add 25 (length ev.key) (encode_payload ev) ∙ tail-encode_payload)
        ∙ take-all ev.value

    -- An event whose fields fit their encoding, and whose lengths fit the 32 bits of a record's
    -- length, is read back from its payload.
    pub decode_payload-encode_payload : decode_payload (encode_payload ev) ≡ got ev
    unfolding decode_payload
    decode_payload-encode_payload =
        rw (key_len-encode_payload, value_len-encode_payload, length-encode_payload)
          (rw
            (
              key-encode_payload, value-encode_payload, seq-encode_payload, time-encode_payload,
              op-encode_payload,
            )
            (ground arith))
