-- ===== src/Eviction/Fifo.antt =====
-- fifo.go: first in, first out. A use of a key does not change its place.
use dist_cache.Base.{
  ℕ, suc, ◌≤◌, ◌≡◌, refl, ite, true, false, Option, none, some, List, [], ◌∷◌, arith, Bytes,
  Bytes-discrete, bytes_eq, Option-cases, inl, inr,
}
use dist_cache.Base.Assoc.{lookup, insert, lookup-insert}
use dist_cache.Eviction.LinkedList.{
  value_of, first, push_back, handle_of, handle_of-snoc, IsLinked-snoc,
}
use dist_cache.Eviction.Policy.{Policy, Bounded, Tracking, evict_path}
use dist_cache.Eviction.Queue.{
  Queue, empty, IsValid, holds, weight, drop_key, take_end, empty-IsValid, drop_key-IsValid,
  holds-drop_key, take_end-IsValid, holds-take_end, take_end_weight,
}

unfoldable pub add : Queue → Bytes → Queue
unfolding push_back
add q k = elim (lookup k q.nodes) [
  | some _ ↦ q
  | none ↦ let (l, el) = push_back k q.ll in record { ll = l; nodes = insert k el q.nodes }
]

unfoldable pub access : Queue → Bytes → Queue
access q k = q

unfoldable pub evict : Queue → Queue × Option Bytes
evict q = take_end q (first q.ll.elems)

add-IsValid : (q : Queue) (k : Bytes) → IsValid q → IsValid (add q k)
unfolding add
add-IsValid q k v = elim (Option-cases (lookup k q.nodes)) [
  | inr (el, e) ↦ rw (e, add) v
  | inl e ↦
      rw (e, add)
        (record {
          linked = IsLinked-snoc q.ll.next k q.ll.elems v.linked (ground (arith, v.indexed k));
          indexed = λ j. ground (
            arith,
            lookup-insert k j q.ll.next q.nodes,
            v.indexed j,
            v.indexed k,
            handle_of-snoc q.ll.next k j q.ll.elems,
          );
        })
]

holds-add :
    (q : Queue) (k j : Bytes) → holds (add q k) j ≡ ite (Bytes-discrete k j) true (holds q j)
unfolding add holds
holds-add q k j = ground (arith, lookup-insert k j q.ll.next q.nodes)

pub value_of-first :
    (es : List (ℕ × Bytes)) (el : ℕ) (k : Bytes) → first es ≡ some (el, k) → value_of el es ≡ some k
unfolding first value_of
value_of-first [] el k h = absurd (ground arith)
value_of-first ((i, a) ∷ es) el k h = ground arith

front :
    (q : Queue) (el : ℕ) (k : Bytes)
    → first q.ll.elems ≡ some (el, k)
    → value_of el q.ll.elems ≡ some k
front q = value_of-first q.ll.elems

holds_nothing : (es : List (ℕ × Bytes)) (k : Bytes) → first es ≡ none → handle_of k es ≡ none
unfolding first handle_of
holds_nothing [] k h = refl
holds_nothing (e ∷ es) k h = absurd (ground arith)

no_victim : (q q' : Queue) (k : Bytes) → IsValid q → evict q ≡ (q', none) → holds q k ≡ false
unfolding evict take_end holds
no_victim q q' k v h = elim (Option-cases (first q.ll.elems)) [
  | inl e ↦ ground (arith, v.indexed k, holds_nothing q.ll.elems k e)
  | inr (x, e) ↦ absurd (ground arith)
]

no_victim_state : (q q' : Queue) (k : Bytes) → evict q ≡ (q', none) → holds q' k ≡ holds q k
unfolding evict take_end
no_victim_state q q' k h = ground arith

abbrev pub fifo : Policy
fifo = record {
  State = Queue;
  init = empty;
  add = add;
  access = access;
  remove = drop_key;
  evict = evict;
  len = weight;
  weight = weight;
  note = none;
}

evict-IsValid : (q : Queue) → IsValid q → IsValid (evict q).0
unfolding evict
evict-IsValid q v = take_end-IsValid q v (first q.ll.elems) (front q)

held_victim :
    (q q' : Queue) (k j : Bytes)
    → IsValid q
    → evict q ≡ (q', some k)
    → (holds q k ≡ true) × (holds q' j ≡ ite (Bytes-discrete k j) false (holds q j))
unfolding evict
held_victim q q' k j v h = holds-take_end q v (first q.ll.elems) (front q) q' k j h

holds-empty : (k : Bytes) → holds empty k ≡ false
unfolding holds lookup
holds-empty k = refl

pub fifo_tracking : Tracking fifo
fifo_tracking = record {
  IsValid = IsValid;
  holds = holds;
  init-IsValid = empty-IsValid;
  holds-init = holds-empty;
  add-IsValid = add-IsValid;
  access-IsValid = λ q k v. unfold access in v;
  remove-IsValid = λ q k v. drop_key-IsValid q v k;
  evict-IsValid = evict-IsValid;
  note-IsValid = λ q k e v. v;
  holds-add = λ q k j v. holds-add q k j;
  holds-access = λ q k j v. unfold access in refl;
  holds-remove = λ q k j v. holds-drop_key q v k j;
  holds-note = λ q k j e v h. refl;
  victim_held = λ q k v h. (held_victim q (evict q).0 k k v (evict_path (evict q) (some k) h)).0;
  holds-evict = λ q k j v h. (held_victim q (evict q).0 k j v (evict_path (evict q) (some k) h)).1;
  no_victim = λ q k v h. no_victim q (evict q).0 k v (evict_path (evict q) none h);
  no_victim_state = λ q k h. no_victim_state q (evict q).0 k (evict_path (evict q) none h);
}

evict_weight : (q q' : Queue) (k : Bytes) → evict q ≡ (q', some k) → suc (weight q') ≤ weight q
unfolding evict
evict_weight q q' k h = take_end_weight q (first q.ll.elems) (λ el l e. (l, front q el l e)) q' k h

pub fifo_bounded : Bounded fifo
fifo_bounded = record {
  evict_weight = λ q k h. evict_weight q (evict q).0 k (evict_path (evict q) (some k) h);
}
