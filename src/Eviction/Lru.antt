-- ===== src/Eviction/Lru.antt =====
-- lru.go: least recently used. A use of a key moves its element to the front.
pub mod Laws
use dist_cache.Base.{
  ℕ, suc, ◌+◌, ◌≤◌, ◌≡◌, Option, none, some, ◌∷◌, arith, Bytes, bytes_eq, Option-cases, inl, inr,
}
use dist_cache.Base.Assoc.{lookup, insert, lookup-insert}
use dist_cache.Eviction.LinkedList.{
  unlink, value_of, last, push_front, move_to_front, handle_of, value_of-handle_of,
  handle_of-unlink, value_of-unlink_self, IsLinked-unlink, value_of-below, IsLinked-mono,
}
use dist_cache.Eviction.Policy.{Policy}
use dist_cache.Eviction.Queue.{empty, weight, drop_key, Queue, IsValid, take_end}

unfoldable pub add : Queue → Bytes → Queue
unfolding push_front move_to_front
add q k = elim (lookup k q.nodes) [
  | some el ↦ record q { ll = move_to_front el q.ll }
  | none ↦ let (l, el) = push_front k q.ll in record { ll = l; nodes = insert k el q.nodes }
]

unfoldable pub access : Queue → Bytes → Queue
unfolding move_to_front
access q k = elim (lookup k q.nodes) [
  | some el ↦ record q { ll = move_to_front el q.ll }
  | none ↦ q
]

-- `last` is `p.ll.Back()`.
unfoldable pub evict : Queue → Queue × Option Bytes
evict q = take_end q (last q.ll.elems)

-- Moving an element to the front.
module _ (q : Queue) (v : IsValid q) (k : Bytes) (el : ℕ) (e : lookup k q.nodes ≡ some el) where
  at : value_of el q.ll.elems ≡ some k
  at = value_of-handle_of q.ll.next k el q.ll.elems v.linked (ground (arith, v.indexed k))

  abbrev moved : Queue
  moved = record q { ll = record q.ll { elems = (el, k) ∷ unlink el q.ll.elems } }

  move-eq-moved : move_to_front el q.ll ≡ moved.ll
  unfolding move_to_front
  move-eq-moved = ground (arith, at)

  moved_fresh : suc el ≤ q.ll.next
  moved_fresh = ground (arith, at, value_of-below q.ll.next el q.ll.elems v.linked)

  moved-IsValid : IsValid moved
  unfolding handle_of
  moved-IsValid = record {
    linked = (
      moved_fresh,
      value_of-unlink_self q.ll.next el q.ll.elems v.linked,
      ground (arith, at, handle_of-unlink q.ll.next el k k q.ll.elems v.linked),
      IsLinked-unlink q.ll.next el q.ll.elems v.linked,
    );
    indexed = λ j.
        ground (arith, e, v.indexed j, at, handle_of-unlink q.ll.next el k j q.ll.elems v.linked);
  }

abbrev pushed : Queue → Bytes → Queue
pushed q k = record {
  ll = record { next = q.ll.next + 1; elems = (q.ll.next, k) ∷ q.ll.elems };
  nodes = insert k q.ll.next q.nodes;
}

pushed-IsValid :
    (q : Queue) (k : Bytes) → IsValid q → lookup k q.nodes ≡ none → IsValid (pushed q k)
unfolding handle_of
pushed-IsValid q k v e = record {
  linked = (
    omega arith,
    value_of-below q.ll.next q.ll.next q.ll.elems v.linked (omega arith),
    ground (arith, v.indexed k),
    IsLinked-mono q.ll.next q.ll.elems v.linked,
  );
  indexed = λ j. ground (arith, lookup-insert k j q.ll.next q.nodes, v.indexed j);
}

-- Both keep the map and the list in step.
module _ (q : Queue) (k : Bytes) (v : IsValid q) where
  pub add-IsValid : IsValid (add q k)
  unfolding add
  add-IsValid = elim (Option-cases (lookup k q.nodes)) [
    | inl e ↦ rw (e, add) (pushed-IsValid q k v e)
    | inr (el, e) ↦ rw (e, add, move-eq-moved q v k el e) (moved-IsValid q v k el e)
  ]

  pub access-IsValid : IsValid (access q k)
  unfolding access
  access-IsValid = elim (Option-cases (lookup k q.nodes)) [
    | inl e ↦ rw (e, access) v
    | inr (el, e) ↦ rw (e, access, move-eq-moved q v k el e) (moved-IsValid q v k el e)
  ]

abbrev pub lru : Policy
lru = record {
  State = Queue;
  init = empty;
  add = add;
  access = access;
  remove = drop_key;
  evict = evict;
  len = weight;
  weight = weight;
  note = none;
}
