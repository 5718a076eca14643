-- ===== src/Replication/Replica/Session.antt =====
-- A replica that reads a snapshot, its mark, and the frames of the events behind it.
use dist_cache.Base.{
  ℕ, suc, ◌+◌, ◌-◌, ◌^◌, ◌<◌, ◌≤◌, ◌≡◌, refl, ap, sym, ◌∙◌, subst, true, Option, none, List, [],
  ◌∷◌, ◌++◌, Bytes, bytes_eq, length, length-append, All, arith,
}
use dist_cache.Base.BigEndian.{get_u64-put_u64}
use dist_cache.Cache.Item.{Item, Event, flush_event}
use dist_cache.Cache.Shard.EventLog.{replay}
use dist_cache.Cache.Store.{Cache, apply_event}
use dist_cache.Cache.Store.Apply.{
  IsUnlimited, Follows, flushed-Follows, apply_events, apply_events-Follows,
}
use dist_cache.Cache.Wire.{IsWire}
use dist_cache.Eviction.Policy.{Policy}
use dist_cache.Persistence.Snapshot.{exported}
use dist_cache.Replication.Codec.{
  frame_event, max_frame, write_frame, encode_event, u64_bytes, read_u64, read_frame,
  read_frame-write_frame, decode_event-encode_event,
}
use dist_cache.Replication.Primary.{frame_synced}
use dist_cache.Replication.Primary.Stream.{frames}
use dist_cache.Replication.Replica.{
  Replica, Ending, connection_error, new_replica, on_replicated, on_synced, on_frame,
  replicate_loop, replicate,
}
use mathlib.Core.List.{append_assoc, append-nil}

-- An event that the wire can carry.
pub record IsSent (ev : Event) : Type 0 where
  pub wire : IsWire ev
  pub fits : length (encode_event ev) ≤ max_frame

module _ (hash : Bytes → ℕ) {p : Policy} where
  -- The events applied in order.
  unfoldable pub on_events : List Event → Replica p → Replica p
  on_events [] r = r
  on_events (ev ∷ evs) r = on_events evs (on_replicated hash ev r)

  on_frame-event :
      (ev : Event) (r : Replica p)
      → IsSent ev
      → on_frame hash frame_event (encode_event ev) r ≡ (on_replicated hash ev r, none)
  unfolding on_frame
  on_frame-event ev r h = rw (on_frame, decode_event-encode_event ev h.wire) refl

  replicate_loop-event :
      (ev : Event) (fuel : ℕ) (rest : Bytes) (r : Replica p)
      → IsSent ev
      → replicate_loop hash (suc fuel) (write_frame frame_event (encode_event ev) ++ rest) r
        ≡ replicate_loop hash fuel rest (on_replicated hash ev r)
  unfolding replicate_loop
  replicate_loop-event ev fuel rest r h =
      rw
        (
          replicate_loop,
          read_frame-write_frame frame_event (encode_event ev) rest h.fits,
          on_frame-event ev r h,
        )
        (ap (λ (st : Replica p × Option Ending). replicate_loop hash fuel rest st.0)
          (on_frame-event ev r h))

  replicate_loop-frames :
      (evs : List Event) (fuel : ℕ) (rest : Bytes) (r : Replica p)
      → All IsSent evs
      → replicate_loop hash (length evs + fuel) (frames evs ++ rest) r
        ≡ replicate_loop hash fuel rest (on_events evs r)
  unfolding frames on_events
  replicate_loop-frames [] fuel rest r h = ap (λ n. replicate_loop hash n rest r) (omega arith)
  replicate_loop-frames (ev ∷ evs) fuel rest r h =
      ap (λ n. replicate_loop hash n (frames (ev ∷ evs) ++ rest) r) (omega arith)
      ∙ ap (λ b. replicate_loop hash (suc (length evs + fuel)) b r)
          (append_assoc (write_frame frame_event (encode_event ev)) (frames evs) rest)
      ∙ replicate_loop-event ev (length evs + fuel) (frames evs ++ rest) r h.0
      ∙ replicate_loop-frames evs fuel rest (on_replicated hash ev r) h.1

  -- The mark behind a snapshot.
  unfoldable pub synced_at : ℕ → Replica p → Replica p
  synced_at s r = record r { synced = true; last_applied = s }

  replicate_loop-synced :
      (s fuel : ℕ) (rest : Bytes) (r : Replica p)
      → s < 2 ^ 64
      → replicate_loop hash (suc fuel) (write_frame frame_synced (u64_bytes s) ++ rest) r
        ≡ replicate_loop hash fuel rest (synced_at s r)
  unfolding replicate_loop on_frame on_synced u64_bytes read_u64 synced_at
  replicate_loop-synced s fuel rest r h =
      rw
        (
          replicate_loop,
          read_frame-write_frame frame_synced (u64_bytes s) rest (omega arith),
          get_u64-put_u64 s [] h,
        )
        refl

  replicate_loop-end :
      (fuel : ℕ) (r : Replica p) → replicate_loop hash (suc fuel) [] r ≡ (r, connection_error)
  unfolding replicate_loop read_frame
  replicate_loop-end fuel r = refl

  pub cache-on_events :
      (evs : List Event) (r : Replica p) → (on_events evs r).cache ≡ apply_events hash evs r.cache
  unfolding on_events apply_events on_replicated
  cache-on_events [] r = refl
  cache-on_events (ev ∷ evs) r = cache-on_events evs (on_replicated hash ev r)

  pub synced-on_events : (evs : List Event) (r : Replica p) → (on_events evs r).synced ≡ r.synced
  unfolding on_events on_replicated
  synced-on_events [] r = refl
  synced-on_events (ev ∷ evs) r = synced-on_events evs (on_replicated hash ev r)

length-frames-le : (evs : List Event) → length evs ≤ length (frames evs)
unfolding frames write_frame
length-frames-le [] = omega arith
length-frames-le (ev ∷ evs) = omega (
  arith,
  length-append (write_frame frame_event (encode_event ev)) (frames evs),
  length-frames-le evs,
)

length-mark : (s : ℕ) → 0 < length (write_frame frame_synced (u64_bytes s))
unfolding write_frame
length-mark s = omega arith

module _ (hash : Bytes → ℕ) {p : Policy} where
  -- The whole of a connection: a snapshot, its mark, and the events behind it.
  pub replicate-session :
      (first tail : List Event) (s : ℕ) (r : Replica p)
      → All IsSent first
      → All IsSent tail
      → s < 2 ^ 64
      → replicate hash ((frames first ++ write_frame frame_synced (u64_bytes s)) ++ frames tail) r
        ≡ (on_events hash tail (synced_at hash s (on_events hash first r)), connection_error)
  unfolding replicate
  replicate-session first tail s r h k small =
      ap (λ n. replicate_loop hash n ((frames first ++ mark) ++ frames tail) r) fuel
      ∙ ap (λ b. replicate_loop hash (length first + (suc (length tail + suc more))) b r)
          (append_assoc (frames first) mark (frames tail))
      ∙ replicate_loop-frames hash first (suc (length tail + suc more)) (mark ++ frames tail) r h
      ∙ replicate_loop-synced hash s (length tail + suc more) (frames tail) (on_events hash first r)
          small
      ∙ ap (λ b. replicate_loop hash (length tail + suc more) b after_mark)
          (sym (append-nil (frames tail)))
      ∙ replicate_loop-frames hash tail (suc more) [] after_mark k
      ∙ replicate_loop-end hash more (on_events hash tail after_mark)
    where
      mark : Bytes
      mark = write_frame frame_synced (u64_bytes s)

      after_mark : Replica p
      after_mark = synced_at hash s (on_events hash first r)

      more : ℕ
      more = length ((frames first ++ mark) ++ frames tail) - length first - length tail - 1

      fuel :
          suc (length ((frames first ++ mark) ++ frames tail))
          ≡ length first + (suc (length tail + suc more))
      fuel = omega (
        arith,
        length-append (frames first ++ mark) (frames tail),
        length-append (frames first) mark,
        length-frames-le first,
        length-frames-le tail,
        length-mark s,
      )

  -- The cache of a replica that has read a snapshot and the events behind it.
  pub cache-session :
      (items : List (Bytes × Item)) (tail : List Event) (s : ℕ) (c : Cache p)
      → ((i : ℕ) → IsUnlimited (c.shard i))
      → Follows hash
          (replay tail (replay (exported items) []))
          (on_events hash tail (
            synced_at hash s (on_events hash (flush_event ∷ exported items) (new_replica c)))).cache
  unfolding on_events on_replicated synced_at
  cache-session items tail s c u =
      subst (Follows hash (replay tail (replay (exported items) [])))
        (sym (
          cache-on_events hash tail
            (synced_at hash s (on_events hash (flush_event ∷ exported items) (new_replica c)))
          ∙ ap (apply_events hash tail) (
              cache-on_events hash (exported items)
                (on_replicated hash flush_event (new_replica c)))))
        (apply_events-Follows hash tail _ _
          (apply_events-Follows hash (exported items) [] (apply_event hash flush_event c) flushed))
    where
      flushed : Follows hash [] (apply_event hash flush_event c)
      flushed = unfold apply_event in flushed-Follows hash c u
