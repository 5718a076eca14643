-- ===== src/Eviction/Lru/Laws.antt =====
-- lru.go keeps the promises of a tracking policy, and names the key used last only when it holds
-- no other.
use dist_cache.Base.{
  ℕ, suc, ◌≤◌, ◌≡◌, refl, ◌≢◌, ite, true, false, Option, none, some, List, [], ◌∷◌, arith, Bytes,
  Bytes-discrete, bytes_eq, Option-cases, inl, inr, ℕ_discrete,
}
use dist_cache.Base.Assoc.{lookup, lookup-insert}
use dist_cache.Eviction.LinkedList.{
  IsLinked, unlink, value_of, last, remove, handle_of, value_of-last, value_of-handle_of,
  handle_of-value_of,
}
use dist_cache.Eviction.Policy.{Bounded, Tracking, evict_path, Recency}
use dist_cache.Eviction.Queue.{
  Queue, empty, IsValid, holds, weight, take_end, empty-IsValid, drop_key-IsValid, holds-drop_key,
  take_end-IsValid, holds-take_end, take_end_weight,
}
use dist_cache.Eviction.Lru.{add, access, evict, lru, add-IsValid, access-IsValid}

holds-add :
    (q : Queue) (k j : Bytes) → holds (add q k) j ≡ ite (Bytes-discrete k j) true (holds q j)
unfolding add holds
holds-add q k j = ground (arith, lookup-insert k j q.ll.next q.nodes)

holds-access : (q : Queue) (k j : Bytes) → holds (access q k) j ≡ holds q j
unfolding access holds
holds-access q k j = ground arith

back :
    (q : Queue)
    → IsValid q
    → (el : ℕ) (k : Bytes) → last q.ll.elems ≡ some (el, k)
    → value_of el q.ll.elems ≡ some k
back q v el k h = value_of-last q.ll.next el k q.ll.elems v.linked h

last-ne-none : (e : ℕ × Bytes) (es : List (ℕ × Bytes)) → last (e ∷ es) ≢ none
unfolding last
last-ne-none e [] = λ h. cc
last-ne-none e (e' ∷ es) = last-ne-none e' es

holds_nothing : (es : List (ℕ × Bytes)) (k : Bytes) → last es ≡ none → handle_of k es ≡ none
unfolding handle_of
holds_nothing [] k h = refl
holds_nothing (e ∷ es) k h = absurd (last-ne-none e es h)

no_victim : (q q' : Queue) (k : Bytes) → IsValid q → evict q ≡ (q', none) → holds q k ≡ false
unfolding evict take_end holds
no_victim q q' k v h = elim (Option-cases (last q.ll.elems)) [
  | inl e ↦ ground (arith, v.indexed k, holds_nothing q.ll.elems k e)
  | inr (x, e) ↦ absurd (ground arith)
]

no_victim_state : (q q' : Queue) (k : Bytes) → evict q ≡ (q', none) → holds q' k ≡ holds q k
unfolding evict take_end
no_victim_state q q' k h = ground arith

evict-IsValid : (q : Queue) → IsValid q → IsValid (evict q).0
unfolding evict
evict-IsValid q v = take_end-IsValid q v (last q.ll.elems) (back q v)

held_victim :
    (q q' : Queue) (k j : Bytes)
    → IsValid q
    → evict q ≡ (q', some k)
    → (holds q k ≡ true) × (holds q' j ≡ ite (Bytes-discrete k j) false (holds q j))
unfolding evict
held_victim q q' k j v h = holds-take_end q v (last q.ll.elems) (back q v) q' k j h

holds-empty : (k : Bytes) → holds empty k ≡ false
unfolding holds lookup
holds-empty k = refl

pub lru_tracking : Tracking lru
lru_tracking = record {
  IsValid = IsValid;
  holds = holds;
  init-IsValid = empty-IsValid;
  holds-init = holds-empty;
  add-IsValid = add-IsValid;
  access-IsValid = access-IsValid;
  remove-IsValid = λ q k v. drop_key-IsValid q v k;
  evict-IsValid = evict-IsValid;
  note-IsValid = λ q k e v. v;
  holds-add = λ q k j v. holds-add q k j;
  holds-access = λ q k j v. holds-access q k j;
  holds-remove = λ q k j v. holds-drop_key q v k j;
  holds-note = λ q k j e v h. refl;
  victim_held = λ q k v h. (held_victim q (evict q).0 k k v (evict_path (evict q) (some k) h)).0;
  holds-evict = λ q k j v h. (held_victim q (evict q).0 k j v (evict_path (evict q) (some k) h)).1;
  no_victim = λ q k v h. no_victim q (evict q).0 k v (evict_path (evict q) none h);
  no_victim_state = λ q k h. no_victim_state q (evict q).0 k (evict_path (evict q) none h);
}

-- The key at the front of the list.
front_key : List (ℕ × Bytes) → Option Bytes
front_key [] = none
front_key ((i, a) ∷ es) = some a

abbrev IsNewest : Queue → Bytes → Type 0
IsNewest q k = front_key q.ll.elems ≡ some k

only_key :
    (n el : ℕ) (k j : Bytes) (es : List (ℕ × Bytes))
    → IsLinked n es
    → front_key es ≡ some k
    → last es ≡ some (el, k)
    → handle_of j es ≢ none
    → k ≡ j
unfolding front_key last handle_of
only_key n el k j [] w f l h = absurd (ground arith)
only_key n el k j ((i, a) ∷ []) w f l h = ground arith
only_key n el k j ((i, a) ∷ e ∷ es) w f l h = absurd (
    unfold handle_of in
    ground (arith, value_of-last n el k (e ∷ es) w.3 l, handle_of-value_of n el k (e ∷ es) w.3))

newest_last :
    (q q' : Queue) (k j : Bytes)
    → IsValid q
    → IsNewest q k
    → evict q ≡ (q', some k)
    → holds q j ≡ true
    → k ≡ j
unfolding evict take_end holds
newest_last q q' k j v f h held = elim (Option-cases (last q.ll.elems)) [
  | inl e ↦ absurd (ground arith)
  | inr ((el, l), e) ↦
      only_key q.ll.next el k j q.ll.elems v.linked f (ground arith)
        (λ n. ground (arith, v.indexed j))
]

front-unlink :
    (n el : ℕ) (k j : Bytes) (es : List (ℕ × Bytes))
    → front_key es ≡ some k
    → value_of el es ≡ some j
    → k ≢ j
    → front_key (unlink el es) ≡ some k
unfolding front_key value_of unlink
front-unlink n el k j [] f h d = absurd (ground arith)
front-unlink n el k j ((i, a) ∷ es) f h d = ground arith

evict-IsNewest :
    (q q' : Queue) (k j : Bytes)
    → IsValid q
    → IsNewest q k
    → evict q ≡ (q', some j)
    → k ≢ j
    → IsNewest q' k
unfolding evict take_end remove
evict-IsNewest q q' k j v f h d = elim (Option-cases (last q.ll.elems)) [
  | inl e ↦ absurd (ground arith)
  | inr ((el, l), e) ↦ ground (arith, back q v el l e, front-unlink q.ll.next el k j q.ll.elems f)
]

held_front :
    (q : Queue)
    → IsValid q
    → (k : Bytes) (el : ℕ) → lookup k q.nodes ≡ some el
    → value_of el q.ll.elems ≡ some k
held_front q v k el e =
    value_of-handle_of q.ll.next k el q.ll.elems v.linked (ground (arith, v.indexed k))

add-IsNewest : (q : Queue) (k : Bytes) → IsValid q → IsNewest (add q k) k
unfolding add front_key
add-IsNewest q k v = elim (Option-cases (lookup k q.nodes)) [
  | inl e ↦ ground arith
  | inr (el, e) ↦ ground (arith, held_front q v k el e)
]

access-IsNewest : (q : Queue) (k : Bytes) → IsValid q → holds q k ≡ true → IsNewest (access q k) k
unfolding access front_key holds
access-IsNewest q k v h = elim (Option-cases (lookup k q.nodes)) [
  | inl e ↦ absurd (ground arith)
  | inr (el, e) ↦ ground (arith, held_front q v k el e)
]

pub lru_recency : Recency lru lru_tracking
unfolding lru_tracking
lru_recency = record {
  IsNewest = IsNewest;
  add_newest = add-IsNewest;
  access_newest = access-IsNewest;
  note_newest = λ q k e h. h;
  evict_newest =
      λ q k j v f h. evict-IsNewest q (evict q).0 k j v f (evict_path (evict q) (some j) h);
  newest_last = λ q k j v f h. newest_last q (evict q).0 k j v f (evict_path (evict q) (some k) h);
}

last_held :
    (es : List (ℕ × Bytes)) (el : ℕ) (k : Bytes)
    → last es ≡ some (el, k)
    → (a : Bytes) × (value_of el es ≡ some a)
unfolding last value_of
last_held [] el k h = absurd (ground arith)
last_held ((i, a) ∷ []) el k h = (k, ground arith)
last_held ((i, a) ∷ e ∷ es) el k h =
    let (b, held) = last_held (e ∷ es) el k h in
    (ite (ℕ_discrete i el) a b, unfold value_of in ground arith)

evict_weight : (q q' : Queue) (k : Bytes) → evict q ≡ (q', some k) → suc (weight q') ≤ weight q
unfolding evict
evict_weight q q' k h = take_end_weight q (last q.ll.elems) (last_held q.ll.elems) q' k h

pub lru_bounded : Bounded lru
lru_bounded = record {
  evict_weight = λ q k h. evict_weight q (evict q).0 k (evict_path (evict q) (some k) h);
}
