-- ===== src/Replication/Codec.antt =====
-- internal/replication/codec.go: the frames between a primary and a replica. The connection is
-- the bytes that have still to be read.
use dist_cache.Base.{
  ℕ, ◌*◌, ◌^◌, ◌<◌, ◌≤◌, ◌≡◌, refl, ap, ◌∙◌, Option, none, some, [], ◌∷◌, ◌++◌, arith, Bytes,
  length, take, drop, if◌then◌else◌, ltb, ◌==◌, take-length-append, drop-length-append,
  length-append,
}
use dist_cache.Base.BigEndian.{put_u32, put_u64, get_u32, get_u64, get_u32-put_u32, get_u64-put_u64}
use dist_cache.Cache.Item.{Event}
use dist_cache.Cache.Wire.{
  Decoded, got, malformed, encode_payload, decode_payload, IsWire, length-encode_payload,
  decode_payload-encode_payload,
}

abbrev pub frame_event : ℕ
frame_event = 1

abbrev pub max_frame : ℕ
max_frame = 512 * 2 ^ 20

-- `encodeEvent` writes what `encodeRecord` writes behind the length.
unfoldable pub encode_event : Event → Bytes
encode_event ev = encode_payload ev

unfoldable pub decode_event : Bytes → Decoded Event
decode_event p = if ltb (length p) 25 then malformed else decode_payload p

unfoldable pub write_frame : ℕ → Bytes → Bytes
write_frame typ payload = typ ∷ (put_u32 (length payload) ++ payload)

-- The frame's type, its payload and what is left to read; an error of the connection; or
-- `errFrameTooLarge`.
pub data Frame : Type 0 where
  frame : ℕ → Bytes → Bytes → Frame
  cut_off : Frame
  too_large : Frame

unfoldable pub take_frame : ℕ → ℕ → Bytes → Frame
take_frame typ n bytes =
    if ltb max_frame n
    then too_large
    else if n == 0
    then frame typ [] bytes
    else if ltb (length bytes) n
    then cut_off
    else frame typ (take n bytes) (drop n bytes)

unfoldable pub read_frame : Bytes → Frame
unfolding take_frame
read_frame (typ ∷ a ∷ b ∷ c ∷ d ∷ bytes) = take_frame typ (get_u32 (a ∷ b ∷ c ∷ d ∷ [])) bytes
read_frame _ = cut_off

unfoldable pub u64_bytes : ℕ → Bytes
u64_bytes n = put_u64 n

unfoldable pub read_u64 : Bytes → Option ℕ
read_u64 p = if length p == 8 then some (get_u64 p) else none

take_frame-append :
    (typ : ℕ) (p rest : Bytes)
    → length p ≤ max_frame
    → take_frame typ (length p) (p ++ rest) ≡ frame typ p rest
unfolding take_frame
take_frame-append typ [] rest h = refl
take_frame-append typ (x ∷ p) rest h =
    rw
      (take-length-append (x ∷ p) rest, drop-length-append (x ∷ p) rest, length-append (x ∷ p) rest)
      (ground (arith, h))

pub read_frame-write_frame :
    (typ : ℕ) (p rest : Bytes)
    → length p ≤ max_frame
    → read_frame (write_frame typ p ++ rest) ≡ frame typ p rest
unfolding read_frame write_frame
read_frame-write_frame typ p rest h =
    ap (λ n. take_frame typ n (p ++ rest)) (get_u32-put_u32 (length p) [] (omega (arith, h)))
    ∙ take_frame-append typ p rest h

pub decode_event-encode_event : (ev : Event) → IsWire ev → decode_event (encode_event ev) ≡ got ev
unfolding decode_event encode_event
decode_event-encode_event ev w =
    rw (decode_payload-encode_payload ev w, length-encode_payload ev) (ground arith)

-- An event that fits its encoding and the limit on frames: from the front of a connection on which
-- its frame was written, the frame is read with its type, the bytes behind it are left to read,
-- and the payload decodes to the event. An acknowledged sequence number of 64 bits is read back.
pub event_over_wire :
    (ev : Event) (rest : Bytes) (n : ℕ)
    → IsWire ev
    → length (encode_event ev) ≤ max_frame
    → n < 2 ^ 64
    → (read_frame (write_frame frame_event (encode_event ev) ++ rest)
        ≡ frame frame_event (encode_event ev) rest)
      × (decode_event (encode_event ev) ≡ got ev)
      × (read_u64 (u64_bytes n) ≡ some n)
unfolding read_u64 u64_bytes
event_over_wire ev rest n w h b = (
  read_frame-write_frame frame_event (encode_event ev) rest h,
  decode_event-encode_event ev w,
  ap some (get_u64-put_u64 n [] b),
)
