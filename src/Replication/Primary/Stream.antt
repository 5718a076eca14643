-- ===== src/Replication/Primary/Stream.antt =====
-- What a connection of the primary has written, whatever its goroutines do in what order: the
-- subscriber that offers events, `stream`, and `readAcks`.
use dist_cache.Base.{
  ◌⊎◌, subst, ℕ, ◌≡◌, refl, ap, sym, ◌∙◌, Bool, Bool-cases, inl, inr, true, false, Option, none,
  some, List, [], ◌∷◌, ◌++◌, Bytes, length, if◌then◌else◌, ltb, leb, ◌==◌, Option-cases, arith,
}
use dist_cache.Cache.Item.{Event}
use dist_cache.Replication.Codec.{
  frame_event, write_frame, encode_event, read_u64, Frame, frame, cut_off, too_large,
}
use dist_cache.Replication.Primary.{
  ReplicaConn, channel_size, fail, offer, stream, stream_from, stream_event, write_event, on_ack,
  frame_ack,
}
use mathlib.Core.List.{append_assoc, append-nil}

-- The frames of events.
unfoldable pub frames : List Event → Bytes
frames [] = []
frames (ev ∷ evs) = write_frame frame_event (encode_event ev) ++ frames evs

-- The events with a number above `s`.
abbrev pub newer : ℕ → List Event → List Event
newer s [] = []
newer s (ev ∷ evs) = if leb ev.seq s then newer s evs else ev ∷ newer s evs

pub data Move : Type 0 where
  offered : Event → Move
  streamed : Move
  ack_read : Frame → Move

-- A round of `stream` that waits or has returned changes nothing.
unfoldable pub streamed_on : ReplicaConn → ReplicaConn
unfolding stream
streamed_on rc = elim (stream rc) as (λ _. ReplicaConn) [ none ↦ rc | some rc' ↦ rc' ]

abbrev pub move : Move → ReplicaConn → ReplicaConn
move (offered ev) rc = offer ev rc
move streamed rc = streamed_on rc
move (ack_read f) rc = on_ack f rc

abbrev pub moves : List Move → ReplicaConn → ReplicaConn
moves [] rc = rc
moves (m ∷ ms) rc = moves ms (move m rc)

abbrev pub offers : List Move → List Event
offers [] = []
offers (offered ev ∷ ms) = ev ∷ offers ms
offers (streamed ∷ ms) = offers ms
offers (ack_read f ∷ ms) = offers ms

on_ack-same :
    (f : Frame) (rc : ReplicaConn)
    → ((on_ack f rc).ch ≡ rc.ch)
      × ((on_ack f rc).written ≡ rc.written)
      × ((on_ack f rc).start_seq ≡ rc.start_seq)
      × (rc.failed ≡ true → (on_ack f rc).failed ≡ true)
unfolding on_ack fail
on_ack-same (frame typ payload rest) rc = elim (Bool-cases (typ == frame_ack)) [
  | inr e ↦ rw (on_ack, e) (refl, refl, refl, λ h. h)
  | inl e ↦ elim (Option-cases (read_u64 payload)) [
    | inl f ↦ rw (on_ack, e, f) (refl, refl, refl, λ h. h)
    | inr (n, f) ↦ rw (on_ack, e, f) (refl, refl, refl, λ h. h)
  ]
]
on_ack-same cut_off rc = (refl, refl, refl, λ h. refl)
on_ack-same too_large rc = (refl, refl, refl, λ h. refl)

streamed_on-none : (rc : ReplicaConn) → stream rc ≡ none → streamed_on rc ≡ rc
unfolding streamed_on
streamed_on-none rc h = rw (streamed_on, h) refl

streamed_on-some : (rc rc' : ReplicaConn) → stream rc ≡ some rc' → streamed_on rc ≡ rc'
unfolding streamed_on
streamed_on-some rc rc' h = rw (streamed_on, h) refl

stream-failed : (rc : ReplicaConn) → rc.failed ≡ true → stream rc ≡ none
unfolding stream
stream-failed rc h = ap (λ b. if b then none else stream_from rc.ch rc) h

move-failed : (m : Move) (rc : ReplicaConn) → rc.failed ≡ true → (move m rc).failed ≡ true
unfolding offer fail
move-failed (offered ev) rc h = ground arith
move-failed streamed rc h = rw (streamed_on-none rc (stream-failed rc h)) h
move-failed (ack_read f) rc h = (on_ack-same f rc).3 h

moves-failed : (ms : List Move) (rc : ReplicaConn) → rc.failed ≡ true → (moves ms rc).failed ≡ true
moves-failed [] rc h = h
moves-failed (m ∷ ms) rc h = moves-failed ms (move m rc) (move-failed m rc h)

-- What has been sent and what waits are what waited and what was offered.
pub record Delivered (rc : ReplicaConn) (offs : List Event) (last : ReplicaConn) : Type 0 where
  pub sent : List Event
  pub in_order : sent ++ last.ch ≡ rc.ch ++ offs
  pub bytes : last.written ≡ rc.written ++ frames (newer rc.start_seq sent)

Delivered-offered :
    (ev : Event) (rc last : ReplicaConn) (offs : List Event)
    → Delivered (record rc { ch = rc.ch ++ ev ∷ [] }) offs last
    → Delivered rc (ev ∷ offs) last
Delivered-offered ev rc last offs d = record {
  sent = d.sent;
  in_order = d.in_order ∙ append_assoc rc.ch (ev ∷ []) offs;
  bytes = d.bytes;
}

offer_room :
    (ev : Event) (rc : ReplicaConn)
    → ltb (length rc.ch) channel_size ≡ true
    → offer ev rc ≡ record rc { ch = rc.ch ++ ev ∷ [] }
unfolding offer
offer_room ev rc h = rw (offer, h) refl

offer_full :
    (ev : Event) (rc : ReplicaConn)
    → ltb (length rc.ch) channel_size ≡ false
    → (offer ev rc).failed ≡ true
unfolding offer fail
offer_full ev rc h = rw (offer, h) refl

Delivered-stream_event :
    (ev : Event) (evs : List Event) (rc last : ReplicaConn) (offs : List Event)
    → rc.ch ≡ ev ∷ evs
    → Delivered (stream_event ev (record rc { ch = evs })) offs last
    → Delivered rc offs last
unfolding stream_event write_event frames
Delivered-stream_event ev evs rc last offs e d = elim (Bool-cases (leb ev.seq rc.start_seq)) [
  | inl old ↦ from_old old (subst (λ c. Delivered c offs last) (skip old) d)
  | inr new ↦ from_new new (subst (λ c. Delivered c offs last) (write new) d)
]
  where
    rest : ReplicaConn
    rest = record rc { ch = evs }

    written : ReplicaConn
    written = record rc {
      ch = evs;
      last_sent = ev.seq;
      written = rc.written ++ write_frame frame_event (encode_event ev);
    }

    skip : leb ev.seq rc.start_seq ≡ true → stream_event ev rest ≡ rest
    skip h = rw (stream_event, h) refl

    write : leb ev.seq rc.start_seq ≡ false → stream_event ev rest ≡ written
    write h = rw (stream_event, h) refl

    from_old : leb ev.seq rc.start_seq ≡ true → Delivered rest offs last → Delivered rc offs last
    from_old h d' = record {
      sent = ev ∷ d'.sent;
      in_order = rw e (ap (◌∷◌ ev) d'.in_order);
      bytes = rw (newer, h) d'.bytes;
    }

    from_new :
        leb ev.seq rc.start_seq ≡ false → Delivered written offs last → Delivered rc offs last
    from_new h d' = record {
      sent = ev ∷ d'.sent;
      in_order = rw e (ap (◌∷◌ ev) d'.in_order);
      bytes =
          rw (newer, h)
            (d'.bytes
              ∙ append_assoc rc.written (write_frame frame_event (encode_event ev))
                  (frames (newer rc.start_seq d'.sent)));
    }

Delivered-none : (rc : ReplicaConn) → Delivered rc [] rc
unfolding frames
Delivered-none rc = record { sent = []; in_order = sym (append-nil _); bytes = sym (append-nil _) }

Delivered-ack_read :
    (f : Frame) (rc last : ReplicaConn) (offs : List Event)
    → Delivered (on_ack f rc) offs last
    → Delivered rc offs last
Delivered-ack_read f rc last offs d =
    let (ch, written, start, _) = on_ack-same f rc in
    record {
      sent = d.sent;
      in_order = d.in_order ∙ ap (λ c. c ++ offs) ch;
      bytes =
          d.bytes
          ∙ ap (λ w. w ++ frames (newer (on_ack f rc).start_seq d.sent)) written
          ∙ ap (λ n. rc.written ++ frames (newer n d.sent)) start;
    }

false-true : ◌≡◌ {A = Bool} false true → ⊥
false-true h = ground (arith, h)

List-cases : (evs : List Event) → (evs ≡ []) ⊎ ((e : Event) × (es : List Event) × (evs ≡ e ∷ es))
List-cases [] = inl refl
List-cases (e ∷ es) = inr (e, es, refl)

stream-none : (rc : ReplicaConn) → rc.ch ≡ [] → stream rc ≡ none
unfolding stream
stream-none rc h = ap (λ l. if rc.failed then none else stream_from l rc) h ∙ both rc.failed
  where
    both : (b : Bool) → ◌≡◌ {A = Option ReplicaConn} (if b then none else none) none
    both true = refl
    both false = refl

stream-some :
    (rc : ReplicaConn) (ev : Event) (evs : List Event)
    → rc.failed ≡ false
    → rc.ch ≡ ev ∷ evs
    → stream rc ≡ some (stream_event ev (record rc { ch = evs }))
unfolding stream
stream-some rc ev evs f h =
    ap (λ b. if b then none else stream_from rc.ch rc) f ∙ ap (λ l. stream_from l rc) h

-- A connection of the primary, after any moves in any order: the events offered to it, events
-- streamed to the replica, frames read from the replica. Where it has not failed since, the events
-- that have been taken and those that still wait in its channel are the ones that waited at first
-- and those offered, each once and in order; and of the events taken it has written the frames of
-- those with a number above its snapshot's, and nothing else.
pub moves-Delivered :
    (ms : List Move) (rc : ReplicaConn)
    → (moves ms rc).failed ≡ false
    → Delivered rc (offers ms) (moves ms rc)
moves-Delivered [] rc h = Delivered-none rc
moves-Delivered (offered ev ∷ ms) rc h = elim (Bool-cases (ltb (length rc.ch) channel_size)) [
  | inl room ↦ Delivered-offered ev rc (moves ms (offer ev rc)) (offers ms) (
      subst (λ c. Delivered c (offers ms) (moves ms (offer ev rc))) (offer_room ev rc room)
        (moves-Delivered ms (offer ev rc) h))
  | inr full ↦ absurd (ground (arith, moves-failed ms (offer ev rc) (offer_full ev rc full)))
]
moves-Delivered (streamed ∷ ms) rc h = elim (Bool-cases rc.failed) [
  | inl bad ↦
      absurd (false-true (sym h ∙ moves-failed ms (streamed_on rc) (move-failed streamed rc bad)))
  | inr fine ↦ elim (List-cases rc.ch) [
    | inl e ↦
        let same : streamed_on rc ≡ rc = streamed_on-none rc (stream-none rc e) in
        subst (λ c. Delivered c (offers ms) (moves ms (streamed_on rc))) same
          (moves-Delivered ms (streamed_on rc) h)
    | inr (ev, evs, e) ↦
        let same : streamed_on rc ≡ stream_event ev (record rc { ch = evs }) =
          streamed_on-some rc _ (stream-some rc ev evs fine e) in
        Delivered-stream_event ev evs rc (moves ms (streamed_on rc)) (offers ms) e (
          subst (λ c. Delivered c (offers ms) (moves ms (streamed_on rc))) same
            (moves-Delivered ms (streamed_on rc) h))
  ]
]
moves-Delivered (ack_read f ∷ ms) rc h =
    Delivered-ack_read f rc (moves ms (on_ack f rc)) (offers ms)
      (moves-Delivered ms (on_ack f rc) h)
