-- ===== src/Replication/Converge.antt =====
-- What a list of events does to one key, and why a snapshot that is taken while events go on may
-- hold some of the events that are sent behind it.
use dist_cache.Base.{
  ℕ, zero, suc, ◌+◌, ◌≡◌, refl, ap, sym, ◌∙◌, Bool-cases, inl, inr, ite, Option, none, some, List,
  [], ◌∷◌, ◌++◌, Bytes, Bytes-discrete, bytes_eq, take, drop, if◌then◌else◌, ◌==◌, arith,
}
use dist_cache.Base.Assoc.{Assoc, lookup}
use dist_cache.Base.Int64.{ℤ}
use dist_cache.Cache.Item.{Item, Event, op_set, op_del, op_expire, op_flush}
use dist_cache.Cache.Shard.EventLog.{apply_to, replay, replay-append}
use dist_cache.Cache.Store.Apply.{
  re_timed, lookup-apply_to_set, lookup-apply_to_del, lookup-apply_to_expire,
}

-- The effect on a key: its item stays, gets another time, or is replaced.
data Effect : Type 0 where
  kept : Effect
  timed : ℤ → Effect
  becomes : Option Item → Effect

abbrev run : Effect → Option Item → Option Item
run kept o = o
run (timed e) o = re_timed e o
run (becomes x) o = x

abbrev and_then : Effect → Effect → Effect
and_then s kept = s
and_then kept (timed e) = timed e
and_then (timed d) (timed e) = timed e
and_then (becomes x) (timed e) = becomes (re_timed e x)
and_then s (becomes x) = becomes x

re_timed_twice : (d e : ℤ) (o : Option Item) → re_timed e (re_timed d o) ≡ re_timed e o
re_timed_twice d e none = refl
re_timed_twice d e (some it) = refl

run-and_then : (s t : Effect) (o : Option Item) → run (and_then s t) o ≡ run t (run s o)
run-and_then s kept o = refl
run-and_then kept (timed e) o = refl
run-and_then (timed d) (timed e) o = sym (re_timed_twice d e o)
run-and_then (becomes x) (timed e) o = refl
run-and_then kept (becomes x) o = refl
run-and_then (timed d) (becomes x) o = refl
run-and_then (becomes y) (becomes x) o = refl

run_twice : (s : Effect) (o : Option Item) → run s (run s o) ≡ run s o
run_twice kept o = refl
run_twice (timed e) o = re_timed_twice e e o
run_twice (becomes x) o = refl

effect : Event → Bytes → Effect
effect ev j =
    if ev.op == op_set
    then ite (Bytes-discrete ev.key j)
        (becomes (some (record { value = ev.value; expire_at = ev.expire_at }))) kept
    else if ev.op == op_del
    then ite (Bytes-discrete ev.key j) (becomes none) kept
    else if ev.op == op_expire
    then ite (Bytes-discrete ev.key j) (timed ev.expire_at) kept
    else if ev.op == op_flush
    then becomes none
    else kept

run-ite :
    (k j : Bytes) (s : Effect) (o : Option Item)
    → run (ite (Bytes-discrete k j) s kept) o ≡ ite (Bytes-discrete k j) (run s o) o
run-ite k j s o = ground arith

same_item :
    (k j : Bytes) (e : ℤ) (m : Assoc Bytes Item)
    → ite (Bytes-discrete k j) (re_timed e (lookup k m)) (lookup j m)
      ≡ ite (Bytes-discrete k j) (re_timed e (lookup j m)) (lookup j m)
same_item k j e m = ground arith

lookup-apply_to :
    (ev : Event) (m : Assoc Bytes Item) (j : Bytes)
    → lookup j (apply_to ev m) ≡ run (effect ev j) (lookup j m)
unfolding effect
lookup-apply_to ev m j = elim (Bool-cases (ev.op == op_set)) [
  | inl a ↦ rw (effect, a) (lookup-apply_to_set ev m j a ∙ sym (run-ite ev.key j _ (lookup j m)))
  | inr a ↦ elim (Bool-cases (ev.op == op_del)) [
    | inl b ↦
        rw (effect, a, b) (lookup-apply_to_del ev m j a b ∙ sym (run-ite ev.key j _ (lookup j m)))
    | inr b ↦ elim (Bool-cases (ev.op == op_expire)) [
      | inl c ↦
          rw (effect, a, b, c)
            (lookup-apply_to_expire ev m j a b c
              ∙ same_item ev.key j ev.expire_at m
              ∙ sym (run-ite ev.key j _ (lookup j m)))
      | inr c ↦ elim (Bool-cases (ev.op == op_flush)) [
        | inl d ↦ rw (effect, a, b, c, d) (unfold apply_to lookup in rw (a, b, c, d) refl)
        | inr d ↦ rw (effect, a, b, c, d) (unfold apply_to in rw (a, b, c, d) refl)
      ]
    ]
  ]
]

total_effect : List Event → Bytes → Effect
total_effect [] j = kept
total_effect (ev ∷ evs) j = and_then (effect ev j) (total_effect evs j)

lookup-replay :
    (evs : List Event) (m : Assoc Bytes Item) (j : Bytes)
    → lookup j (replay evs m) ≡ run (total_effect evs j) (lookup j m)
unfolding replay total_effect
lookup-replay [] m j = refl
lookup-replay (ev ∷ evs) m j =
    lookup-replay evs (apply_to ev m) j
    ∙ ap (run (total_effect evs j)) (lookup-apply_to ev m j)
    ∙ sym (run-and_then (effect ev j) (total_effect evs j) (lookup j m))

-- Events that are applied twice in a row do what they do once.
replay_twice :
    (evs : List Event) (m n : Assoc Bytes Item) (j : Bytes)
    → lookup j n ≡ lookup j (replay evs m)
    → lookup j (replay evs n) ≡ lookup j (replay evs m)
replay_twice evs m n j h =
    lookup-replay evs n j
    ∙ ap (run (total_effect evs j)) (h ∙ lookup-replay evs m j)
    ∙ run_twice (total_effect evs j) (lookup j m)
    ∙ sym (lookup-replay evs m j)

-- Equal at a key, equal at it after more events.
pub replay_same :
    (evs : List Event) (m n : Assoc Bytes Item) (j : Bytes)
    → lookup j m ≡ lookup j n
    → lookup j (replay evs m) ≡ lookup j (replay evs n)
replay_same evs m n j h =
    lookup-replay evs m j ∙ ap (run (total_effect evs j)) h ∙ sym (lookup-replay evs n j)

module _ {ℓ} {A : Type ℓ} where
  take-append-drop : (n : ℕ) (xs : List A) → take n xs ++ drop n xs ≡ xs
  take-append-drop zero xs = refl
  take-append-drop (suc n) [] = refl
  take-append-drop (suc n) (x ∷ xs) = ap (◌∷◌ x) (take-append-drop n xs)

  take-past-end : (n : ℕ) → take {A = A} n [] ≡ []
  take-past-end zero = refl
  take-past-end (suc n) = refl

  take_at : {m n : ℕ} (xs : List A) → m ≡ n → take m xs ≡ take n xs
  take_at xs e = ap (λ k. take k xs) e

  pub take-add : (m n : ℕ) (xs : List A) → take (m + n) xs ≡ take m xs ++ take n (drop m xs)
  take-add zero n xs = ap (λ k. take k xs) (omega arith)
  take-add (suc m) n [] = take-past-end (suc m + n) ∙ sym (take-past-end n)
  take-add (suc m) n (x ∷ xs) =
      take_at {n = suc (m + n)} (x ∷ xs) (omega arith) ∙ ap (◌∷◌ x) (take-add m n xs)

-- An item taken from the state after the first `s + k` events, and then all the events behind the
-- first `s`: the key is as after all events.
pub replay_overlap :
    (log : List Event) (s k : ℕ) (start m : Assoc Bytes Item) (j : Bytes)
    → lookup j m ≡ lookup j (replay (take (s + k) log) start)
    → lookup j (replay (drop s log) m) ≡ lookup j (replay log start)
replay_overlap log s k start m j h =
    ap at_j (sym (replay_at (take-append-drop k behind) m) ∙ replay-append seen unseen m)
    ∙ replay_same unseen _ _ j (replay_twice seen before m j (h ∙ ap at_j captured))
    ∙ ap at_j (
        sym (replay-append seen unseen before)
        ∙ replay_at (take-append-drop k behind) before
        ∙ sym (replay-append (take s log) behind start)
        ∙ replay_at (take-append-drop s log) start)
  where
    at_j : Assoc Bytes Item → Option Item
    at_j = lookup j

    behind : List Event
    behind = drop s log

    seen : List Event
    seen = take k behind

    unseen : List Event
    unseen = drop k behind

    before : Assoc Bytes Item
    before = replay (take s log) start

    replay_at : {xs ys : List Event} → xs ≡ ys → (n : Assoc Bytes Item) → replay xs n ≡ replay ys n
    replay_at e n = ap (λ l. replay l n) e

    captured : replay (take (s + k) log) start ≡ replay seen before
    captured = replay_at (take-add s k log) start ∙ replay-append (take s log) seen start
