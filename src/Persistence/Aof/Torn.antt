-- ===== src/Persistence/Aof/Torn.antt =====
-- The file behind a torn record: `Recover` opens the file to append to it as it is.
use dist_cache.Base.{
  ℕ, zero, suc, ◌+◌, ◌≤◌, ◌<◌, ◌≡◌, ap, ◌∙◌, List, [], ◌∷◌, ◌++◌, arith, Bytes, length, take, All,
  length-append, length-take-le,
}
use dist_cache.Base.BigEndian.{put_u32, get_u32}
use dist_cache.Cache.Item.{Event}
use dist_cache.Cache.Wire.{IsWire, encode_payload}
use dist_cache.Persistence.Codec.{
  torn, encode_record, decode_record, length-encode_record, read_payload-short, record_length,
  record_size,
}
use dist_cache.Persistence.Aof.{scan, ended, with_event, read_loop, read_aof, log_of}
use dist_cache.Persistence.Aof.Recovery.{read_record, step-torn, ++-assoc}

module _ {ev : Event} (w : IsWire ev) where
  decode_record-hidden :
      (n : ℕ) (later : Bytes)
      → 4 ≤ n
      → n + length later < length (encode_record ev)
      → decode_record (take n (encode_record ev) ++ later) ≡ torn
  unfolding decode_record encode_record
  decode_record-hidden zero later h g = absurd (omega (arith, h))
  decode_record-hidden (suc zero) later h g = absurd (omega (arith, h))
  decode_record-hidden (suc (suc zero)) later h g = absurd (omega (arith, h))
  decode_record-hidden (suc (suc (suc zero))) later h g = absurd (omega (arith, h))
  decode_record-hidden (suc (suc (suc (suc n)))) later h g =
      read_payload-short _ (take n (encode_payload ev) ++ later) short
    where
      short : length (take n (encode_payload ev) ++ later) < get_u32 (put_u32 (record_size ev))
      short = omega (
        arith,
        g,
        record_length ev w,
        length-take-le n (encode_payload ev),
        length-append (take n (encode_payload ev)) later,
      )

read_loop-torn :
    (evs : List Event)
    → All IsWire evs
    → (tail : Bytes) → decode_record tail ≡ torn
    → (fuel : ℕ) → length (log_of evs ++ tail) < fuel
    → read_loop fuel (log_of evs ++ tail) ≡ scan evs ended
unfolding log_of
read_loop-torn [] ws tail e zero h = absurd (omega (arith, h))
read_loop-torn (ev ∷ evs) (w, ws) tail e zero h = absurd (omega (arith, h))
read_loop-torn [] ws tail e (suc fuel) h = step-torn fuel tail e
read_loop-torn (ev ∷ evs) (w, ws) tail e (suc fuel) h =
    ap (read_loop (suc fuel)) (++-assoc (encode_record ev) (log_of evs) tail)
    ∙ read_record w fuel (log_of evs ++ tail)
    ∙ ap (with_event ev) (read_loop-torn evs ws tail e fuel less)
  where
    less : length (log_of evs ++ tail) < fuel
    less = omega (
      arith,
      h,
      ap length (++-assoc (encode_record ev) (log_of evs) tail),
      length-append (encode_record ev) (log_of evs ++ tail),
      length-encode_record ev,
    )

-- When a file has, behind the log of some events, the first bytes of a further record, at least
-- its length field, and behind those the log of later events, all these fewer bytes than that
-- record's: a pass gives the first log's events and none of the later ones. All events but the
-- later ones fit their encoding.
pub torn_tail_hides :
    (evs : List Event)
    → All IsWire evs
    → (ev : Event) → IsWire ev
    → (n : ℕ) (later : List Event) → 4 ≤ n
    → n + length (log_of later) < length (encode_record ev)
    → read_aof (log_of evs ++ (take n (encode_record ev) ++ log_of later)) ≡ scan evs ended
unfolding read_aof
torn_tail_hides evs ws ev w n later h g =
    read_loop-torn evs ws _ (decode_record-hidden w n (log_of later) h g) _ (omega arith)
