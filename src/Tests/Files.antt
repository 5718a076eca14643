-- ===== src/Tests/Files.antt =====
-- internal/persistence and the number formats, at concrete inputs.
use dist_cache.Base.{◌≡◌, ◌≢◌, refl, [], ◌∷◌, ◌++◌, some, Bytes, List, arith, ℕ, take, All}
use dist_cache.Base.Decimal.{parse_int, format_int}
use dist_cache.Base.Decimal.Laws.{parse_int-format_int}
use dist_cache.Base.Int64.{pos, negsuc}
use dist_cache.Cache.Item.{Event}
use dist_cache.Cache.Wire.{
  IsWire, encode_payload, decode_payload, Decoded, decode_payload-encode_payload,
}
use dist_cache.Persistence.Codec.{Reading, encode_record, decode_record}
use dist_cache.Persistence.Aof.{
  sync_no, sync_always, scan, ended, unfinished, Aof, open_aof, sync, compact, later_than, log_of,
  read_aof,
}
use dist_cache.Persistence.Aof.Recovery.{read_aof-log_of}
use dist_cache.Persistence.Aof.Crash.{
  Step, append_step, steps, appended, crash_recovers_prefix, synced_keeps_all, read_aof-compact,
}
use dist_cache.Persistence.Aof.Ends.{read_aof_ends}
use dist_cache.Persistence.Aof.Torn.{torn_tail_hides}

abbrev pub first_set : Event
first_set = record { seq = 1; op = 0; key = 97 ∷ []; value = 120 ∷ 121 ∷ []; expire_at = pos 0 }

abbrev pub then_del : Event
then_del = record { seq = 2; op = 1; key = 97 ∷ []; value = []; expire_at = negsuc 0 }

pub first_set-IsWire : IsWire first_set
first_set-IsWire = record {
  byte = omega arith;
  seq64 = omega arith;
  time64 = omega arith;
  short = omega arith;
}

pub then_del-IsWire : IsWire then_del
then_del-IsWire = record {
  byte = omega arith;
  seq64 = omega arith;
  time64 = omega arith;
  short = omega arith;
}

abbrev pub two_events : List Event
two_events = first_set ∷ then_del ∷ []

pub two_events-IsWire : All IsWire two_events
two_events-IsWire = (first_set-IsWire, (then_del-IsWire, tt))

abbrev two_steps : List Step
two_steps = append_step 7 first_set ∷ append_step 40 then_del ∷ []

two_steps-IsWire : All IsWire (appended two_steps)
unfolding appended
two_steps-IsWire = two_events-IsWire

-- A record whose key is said to be longer than the payload: 25 bytes, with lengths 1 and 2^32 - 1.
abbrev corrupt : Bytes
corrupt =
    0 ∷ 0 ∷ 0 ∷ 25 ∷ 0 ∷ 0 ∷ 0 ∷ 0 ∷ 0 ∷ 0 ∷ 0 ∷ 0 ∷ 0 ∷ 0 ∷ 0 ∷ 0 ∷ 1 ∷ 255 ∷ 255 ∷ 255 ∷ 255 ∷ 0
    ∷ 0 ∷ 0 ∷ 0 ∷ 0 ∷ 0 ∷ 0 ∷ 0 ∷ []

corrupt_panics : decode_record corrupt ≡ Reading.crashed
unfolding decode_record decode_payload
corrupt_panics = refl

parse_int-format_int_example : parse_int (format_int (negsuc 41)) ≡ some (negsuc 41)
parse_int-format_int_example = parse_int-format_int (negsuc 41) (omega arith)

decode_payload-encode_payload_example :
    decode_payload (encode_payload first_set) ≡ Decoded.got first_set
decode_payload-encode_payload_example = decode_payload-encode_payload first_set first_set-IsWire

read_aof-log_of_example : read_aof (log_of two_events) ≡ scan two_events ended
read_aof-log_of_example = read_aof-log_of two_events two_events-IsWire

crash_recovers_prefix_example :
    (k : ℕ) × (read_aof (steps two_steps (open_aof sync_no [])).disk
      ≡ scan (take k (appended two_steps)) ended)
crash_recovers_prefix_example = crash_recovers_prefix sync_no two_steps two_steps-IsWire

synced_keeps_all_example :
    (read_aof (sync (steps two_steps (open_aof sync_no []))).disk ≡ scan (appended two_steps) ended)
    × (read_aof (steps two_steps (open_aof sync_always [])).disk ≡ scan (appended two_steps) ended)
synced_keeps_all_example = synced_keeps_all sync_no two_steps two_steps-IsWire

read_aof-compact_example :
    (a : Aof) × (compact 1 (steps two_steps (open_aof sync_no [])) ≡ some a)
    × (read_aof a.disk ≡ scan (later_than 1 (appended two_steps)) ended)
read_aof-compact_example = read_aof-compact sync_no two_steps two_steps-IsWire 1

read_aof_ends_example : (read_aof corrupt).ending ≢ unfinished
read_aof_ends_example = read_aof_ends corrupt

-- A record of 40 bytes, cut off after 8, and a whole record of 30 bytes behind it.
abbrev cut_off : Event
cut_off = record first_set { value = 1 ∷ 2 ∷ 3 ∷ 4 ∷ 5 ∷ 6 ∷ 7 ∷ 8 ∷ 9 ∷ 10 ∷ [] }

cut_off-IsWire : IsWire cut_off
cut_off-IsWire = record {
  byte = omega arith;
  seq64 = omega arith;
  time64 = omega arith;
  short = omega arith;
}

-- Behind whole records, the later one is read.
read_without_the_cut :
    read_aof (log_of (then_del ∷ then_del ∷ [])) ≡ scan (then_del ∷ then_del ∷ []) ended
read_without_the_cut =
    read_aof-log_of (then_del ∷ then_del ∷ []) (then_del-IsWire, (then_del-IsWire, tt))

torn_tail_hides_example :
    read_aof (log_of (then_del ∷ []) ++ (take 8 (encode_record cut_off) ++ log_of (then_del ∷ [])))
    ≡ scan (then_del ∷ []) ended
torn_tail_hides_example =
    torn_tail_hides (then_del ∷ []) (then_del-IsWire, tt) cut_off cut_off-IsWire 8 (then_del ∷ [])
      (omega arith) (unfold log_of encode_record encode_payload in omega arith)
