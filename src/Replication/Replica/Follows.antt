-- ===== src/Replication/Replica/Follows.antt =====
-- A replica that reads what a connection of the primary wrote has what the primary's events make.
use dist_cache.Base.{
  ℕ, zero, suc, ◌+◌, ◌^◌, ◌<◌, ◌≤◌, ◌≡◌, refl, ap, sym, ◌∙◌, true, false, List, [], ◌∷◌, ◌++◌,
  Bytes, bytes_eq, length, take, drop, All, arith,
}
use dist_cache.Base.Assoc.{lookup}
use dist_cache.Cache.Item.{Item, Event, set_event, flush_event}
use dist_cache.Cache.Dispatch.Numbers.{number, drop-number}
use dist_cache.Cache.Shard.EventLog.{replay}
use dist_cache.Cache.Store.{Cache}
use dist_cache.Cache.Store.Apply.{IsUnlimited}
use dist_cache.Cache.Store.Routing.{stored}
use dist_cache.Eviction.Policy.{Policy}
use dist_cache.Persistence.Snapshot.{exported}
use dist_cache.Replication.Codec.{frame_event, write_frame, encode_event, u64_bytes}
use dist_cache.Replication.Converge.{replay_overlap}
use dist_cache.Replication.Primary.{
  ReplicaConn, write_event, write_items, send_snapshot, frame_synced,
}
use dist_cache.Replication.Primary.Stream.{
  frames, newer, Move, moves, offers, Delivered, moves-Delivered,
}
use dist_cache.Replication.Replica.{
  Replica, connection_error, new_replica, on_replicated, replicate,
}
use mathlib.Core.List.{append_assoc, append-nil}
use dist_cache.Replication.Replica.Session.{
  IsSent, on_events, synced_at, synced-on_events, replicate-session, cache-session,
}

-- The bytes of a snapshot.
items_written :
    (items : List (Bytes × Item)) (rc : ReplicaConn)
    → ((write_items items rc).written ≡ rc.written ++ frames (exported items))
      × ((write_items items rc).ch ≡ rc.ch)
      × ((write_items items rc).start_seq ≡ rc.start_seq)
unfolding write_items write_event frames
items_written [] rc = (sym (append-nil _), refl, refl)
items_written ((k, it) ∷ items) rc =
    let (w, ch, start) = items_written items (write_event (set_event k it.value it.expire_at) rc) in
    (
      w
          ∙ append_assoc rc.written
              (write_frame frame_event (encode_event (set_event k it.value it.expire_at)))
              (frames (exported items)),
      ch,
      start,
    )

snapshot_written :
    (s : ℕ) (items : List (Bytes × Item)) (rc : ReplicaConn)
    → rc.written ≡ []
    → ((send_snapshot s items rc).written
        ≡ frames (flush_event ∷ exported items) ++ write_frame frame_synced (u64_bytes s))
      × ((send_snapshot s items rc).ch ≡ rc.ch)
      × ((send_snapshot s items rc).start_seq ≡ s)
unfolding send_snapshot write_event frames
snapshot_written s items rc h =
    let (w, ch, start) =
      items_written items (write_event flush_event (record rc { start_seq = s })) in
    (
      ap (λ b. b ++ write_frame frame_synced (u64_bytes s))
          (w
            ∙ ap
                (λ b.
                  (b ++ write_frame frame_event (encode_event flush_event))
                  ++ frames (exported items))
                h),
      ch,
      start,
    )

-- Of numbered events, those behind the snapshot's number.
newer-all : (s n : ℕ) (evs : List Event) → s ≤ n → newer s (number n evs) ≡ number n evs
unfolding number
newer-all s n [] h = refl
newer-all s n (ev ∷ evs) h = ground (arith, newer-all s (suc n) evs)

drop-nil : (k : ℕ) → drop {A = Event} k [] ≡ []
drop-nil zero = refl
drop-nil (suc k) = refl

newer_skip :
    (s n : ℕ) (ev : Event) (evs : List Event)
    → suc n ≤ s
    → newer s (number n (ev ∷ evs)) ≡ newer s (number (suc n) evs)
unfolding number
newer_skip s n ev evs h = ground arith

newer-drop :
    (r k n : ℕ) (evs : List Event)
    → r ≤ k
    → newer (n + k) (drop r (number n evs)) ≡ drop k (number n evs)
unfolding number
newer-drop r k n [] h = ap (newer (n + k)) (drop-nil r) ∙ sym (drop-nil k)
newer-drop zero zero n (ev ∷ evs) h = newer-all (n + 0) n (ev ∷ evs) (omega arith)
newer-drop zero (suc k) n (ev ∷ evs) h =
    newer_skip (n + suc k) n ev evs (omega arith)
    ∙ ap (λ m. newer m (number (suc n) evs)) (omega arith)
    ∙ newer-drop zero k (suc n) evs (omega arith)
newer-drop (suc r) zero n (ev ∷ evs) h = absurd (omega (arith, h))
newer-drop (suc r) (suc k) n (ev ∷ evs) h =
    ap (λ m. newer m (drop r (number (suc n) evs))) (omega arith)
    ∙ newer-drop r k (suc n) evs (omega (arith, h))

newer_at : {m n : ℕ} (evs : List Event) → m ≡ n → newer m evs ≡ newer n evs
newer_at evs e = ap (λ n. newer n evs) e

pub newer-behind :
    (r s : ℕ) (evs : List Event) → r ≤ s → newer s (drop r (number 0 evs)) ≡ drop s (number 0 evs)
newer-behind r s evs h =
    newer_at {n = 0 + s} (drop r (number 0 evs)) (omega arith) ∙ newer-drop r s 0 evs h

module _ (hash : Bytes → ℕ) {p : Policy} where
  last_applied-on_events :
      (n : ℕ) (evs : List Event) (r : Replica p)
      → r.last_applied ≡ n
      → (on_events hash (number n evs) r).last_applied ≡ n + length evs
  unfolding on_events on_replicated number
  last_applied-on_events n [] r h = omega (arith, h)
  last_applied-on_events n (ev ∷ evs) r h =
      last_applied-on_events (suc n) evs (on_replicated hash (record ev { seq = suc n }) r)
        (ground arith)
      ∙ omega arith

length-drop : (k : ℕ) (evs : List Event) → k ≤ length evs → k + length (drop k evs) ≡ length evs
length-drop zero evs h = omega arith
length-drop (suc k) [] h = absurd (omega arith)
length-drop (suc k) (ev ∷ evs) h = omega (arith, length-drop k evs)

All-drop : (n : ℕ) (xs : List Event) → All IsSent xs → All IsSent (drop n xs)
All-drop zero xs h = h
All-drop (suc n) [] h = tt
All-drop (suc n) (x ∷ xs) h = All-drop n xs h.1

-- Every item of a snapshot is the item after some number of events, `s` at least: the shards are
-- exported one by one, while events go on.
unfoldable pub Captures : List Event → ℕ → List (Bytes × Item) → Type 0
Captures log s items =
    (j : Bytes)
    → (k : ℕ) × (lookup j (replay (exported items) []) ≡ lookup j (replay (take (s + k) log) []))

module _ (s : ℕ) (items : List (Bytes × Item)) (rc : ReplicaConn) (ms : List Move) where
  -- The connection after its snapshot and any moves.
  abbrev pub after_moves : ReplicaConn
  after_moves = moves ms (send_snapshot s items rc)

  -- What it has written, when it has not failed and nothing waits.
  written-after_moves :
      (r : ℕ) (evs : List Event)
      → r ≤ s
      → rc.written ≡ []
      → rc.ch ++ offers ms ≡ drop r (number 0 evs)
      → after_moves.failed ≡ false
      → after_moves.ch ≡ []
      → after_moves.written
        ≡ (frames (flush_event ∷ exported items) ++ write_frame frame_synced (u64_bytes s))
          ++ frames (drop s (number 0 evs))
  written-after_moves r evs rs fresh queue fine idle =
      let d : Delivered (send_snapshot s items rc) (offers ms) after_moves =
        moves-Delivered ms (send_snapshot s items rc) fine in
      let (w, ch, start) = snapshot_written s items rc fresh in
      let sent : d.sent ≡ drop r (number 0 evs) =
        sym (append-nil d.sent)
        ∙ ap (◌++◌ d.sent) (sym idle)
        ∙ d.in_order
        ∙ ap (λ l. l ++ offers ms) ch
        ∙ queue in
      d.bytes
      ∙ ap (λ b. b ++ frames (newer (send_snapshot s items rc).start_seq d.sent)) w
      ∙ ap
          (λ l.
            (frames (flush_event ∷ exported items) ++ write_frame frame_synced (u64_bytes s))
            ++ frames l)
          (ap (λ n. newer n d.sent) start ∙ ap (newer s) sent ∙ newer-behind r s evs rs)

module _ (hash : Bytes → ℕ) {p : Policy} where
  last_applied-session :
      (k : ℕ) (evs : List Event) (r : Replica p)
      → k ≤ length evs
      → r.last_applied ≡ k
      → (on_events hash (drop k (number 0 evs)) r).last_applied ≡ length evs
  last_applied-session k evs r h e =
      ap (λ l. (on_events hash l r).last_applied) (drop-number k 0 evs)
      ∙ last_applied-on_events hash (0 + k) (drop k evs) r (omega (arith, e))
      ∙ omega (arith, length-drop k evs h)

-- A cache without limits, any events numbered from 1 on by the primary, and a connection that was
-- registered after the first `r` of them, so that it is offered the others in order. Its snapshot
-- is taken at the number `s`, each item at that number or later, and everything fits the wire.
-- Whenever the connection, after any moves of the goroutines, has not failed and has no event
-- waiting: a replica that reads what it has written stores for every key what all the events make
-- of an empty map, whatever it stored before; it is synced; it acknowledges the number of the last
-- event; and it ends only with the connection.
pub replica_converges :
    (hash : Bytes → ℕ) {p : Policy} (c : Cache p) (evs : List Event) (r s : ℕ)
    (items : List (Bytes × Item)) (rc : ReplicaConn) (ms : List Move) (j : Bytes)
    → ((i : ℕ) → IsUnlimited (c.shard i))
    → length evs < 2 ^ 64
    → r ≤ s
    → s ≤ length evs
    → All IsSent (flush_event ∷ exported items)
    → All IsSent (number 0 evs)
    → Captures (number 0 evs) s items
    → rc.written ≡ []
    → rc.ch ++ offers ms ≡ drop r (number 0 evs)
    → (after_moves s items rc ms).failed ≡ false
    → (after_moves s items rc ms).ch ≡ []
    → (stored hash (replicate hash (after_moves s items rc ms).written (new_replica c)).0.cache j
        ≡ lookup j (replay (number 0 evs) []))
      × ((replicate hash (after_moves s items rc ms).written (new_replica c)).0.synced ≡ true)
      × ((replicate hash (after_moves s items rc ms).written (new_replica c)).0.last_applied
          ≡ length evs)
      × ((replicate hash (after_moves s items rc ms).written (new_replica c)).1 ≡ connection_error)
unfolding Captures synced_at
replica_converges hash c evs r s items rc ms j unl small rs se wire_items wire_log capt fresh queue
      fine idle =
    let log : List Event = number 0 evs in
    let tail : List Event = drop s log in
    let first : List Event = flush_event ∷ exported items in
    let run : replicate hash (after_moves s items rc ms).written (new_replica c) ≡ (
      on_events hash tail (synced_at hash s (on_events hash first (new_replica c))),
      connection_error,
    ) =
      ap (λ b. replicate hash b (new_replica c))
        (written-after_moves s items rc ms r evs rs fresh queue fine idle)
      ∙ replicate-session hash first tail s (new_replica c) wire_items (All-drop s log wire_log)
          (omega (arith, small, se)) in
    let after_mark = synced_at hash s (on_events hash first (new_replica c)) in
    let (k, e) = capt j in
    rw run (
      (cache-session hash items tail s c unl).agrees j
          ∙ replay_overlap log s k [] (replay (exported items) []) j e,
      synced-on_events hash tail (synced_at hash s (on_events hash first (new_replica c))),
      last_applied-session hash s evs after_mark se refl,
      refl,
    )
