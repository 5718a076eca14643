-- ===== src/Eviction/Queue.antt =====
-- The state that lru.go and fifo.go share: a linked list of keys and a map from a key to its
-- element.
use dist_cache.Base.{
  ℕ, suc, ◌≤◌, ◌≡◌, refl, ite, Bool, true, false, Option, none, some, [], arith, length, Bytes,
  Bytes-discrete, bytes_eq, Option-cases, inl, inr,
}
use dist_cache.Base.Assoc.{Assoc, lookup, erase, lookup-erase}
use dist_cache.Eviction.LinkedList.{
  LinkedList, unlink, value_of, remove, handle_of, IsLinked, value_of-handle_of, IsLinked-unlink,
  handle_of-unlink, length-unlink, handle_of-value_of,
}

pub record Queue : Type 0 where
  pub ll : LinkedList Bytes
  pub nodes : Assoc Bytes ℕ

abbrev pub empty : Queue
empty = record { ll = record { next = 0; elems = [] }; nodes = [] }

-- `if el, ok := p.nodes[key]; ok { p.ll.Remove(el); delete(p.nodes, key) }`
unfoldable pub drop_key : Queue → Bytes → Queue
drop_key q k = elim (lookup k q.nodes) [
  | none ↦ q
  | some el ↦ record { ll = remove el q.ll; nodes = erase k q.nodes }
]

-- `p.ll.Remove(el); delete(p.nodes, key)` on an end of the list, where there is one
unfoldable pub take_end : Queue → Option (ℕ × Bytes) → Queue × Option Bytes
take_end q none = (q, none)
take_end q (some (el, k)) = (record { ll = remove el q.ll; nodes = erase k q.nodes }, some k)

-- The map names, for each key, the element of the list that holds it, and nothing else.
pub record IsValid (q : Queue) : Type 0 where
  pub linked : IsLinked q.ll.next q.ll.elems
  pub indexed : (k : Bytes) → lookup k q.nodes ≡ handle_of k q.ll.elems

abbrev is_some : {A : Type 0} → Option A → Bool
is_some none = false
is_some (some a) = true

unfoldable pub holds : Queue → Bytes → Bool
holds q k = is_some (lookup k q.nodes)

unfoldable pub weight : Queue → ℕ
weight q = length q.ll.elems

pub empty-IsValid : IsValid empty
unfolding lookup handle_of
empty-IsValid = record { linked = tt; indexed = λ k. refl }

-- Taking out the element of a key, and its binding.
module _ (q : Queue) (v : IsValid q) (k : Bytes) (el : ℕ)
    (at : value_of el q.ll.elems ≡ some k) where
  abbrev dropped : Queue
  dropped = record {
    ll = record { next = q.ll.next; elems = unlink el q.ll.elems };
    nodes = erase k q.nodes;
  }

  dropped-IsValid : IsValid dropped
  dropped-IsValid = record {
    linked = IsLinked-unlink q.ll.next el q.ll.elems v.linked;
    indexed = λ j. ground (
      arith,
      lookup-erase k j q.nodes,
      v.indexed j,
      handle_of-unlink q.ll.next el k j q.ll.elems v.linked,
    );
  }

  holds-dropped : (j : Bytes) → holds dropped j ≡ ite (Bytes-discrete k j) false (holds q j)
  unfolding holds
  holds-dropped j = ground (arith, lookup-erase k j q.nodes)

module _ (q : Queue) (v : IsValid q) (k : Bytes) where
  pub drop_key-IsValid : IsValid (drop_key q k)
  unfolding drop_key remove
  drop_key-IsValid = elim (Option-cases (lookup k q.nodes)) [
    | inl e ↦ rw (e, drop_key) v
    | inr (el, e) ↦
        rw (e, drop_key)
          (dropped-IsValid q v k el
            (value_of-handle_of q.ll.next k el q.ll.elems v.linked (ground (arith, v.indexed k))))
  ]

  pub holds-drop_key :
      (j : Bytes) → holds (drop_key q k) j ≡ ite (Bytes-discrete k j) false (holds q j)
  unfolding drop_key holds
  holds-drop_key j = ground (arith, lookup-erase k j q.nodes)

-- An end of the list: the element with its handle.
module _ (q : Queue) (v : IsValid q) (end : Option (ℕ × Bytes))
    (at : (el : ℕ) (k : Bytes) → end ≡ some (el, k) → value_of el q.ll.elems ≡ some k) where
  pub take_end-IsValid : IsValid (take_end q end).0
  unfolding take_end remove
  take_end-IsValid = elim (Option-cases end) [
    | inl e ↦ rw (e, take_end) v
    | inr ((el, k), e) ↦ rw (e, take_end) (dropped-IsValid q v k el (at el k e))
  ]

  pub holds-take_end :
      (q' : Queue) (k j : Bytes)
      → take_end q end ≡ (q', some k)
      → (holds q k ≡ true) × (holds q' j ≡ ite (Bytes-discrete k j) false (holds q j))
  unfolding take_end holds
  holds-take_end q' k j h = elim (Option-cases end) [
    | inl e ↦ absurd (ground arith)
    | inr ((el, l), e) ↦ ground (
      arith,
      at el l e,
      v.indexed l,
      handle_of-value_of q.ll.next el l q.ll.elems v.linked,
      lookup-erase l j q.nodes,
    )
  ]

-- Taking an end off shortens the list.
pub take_end_weight :
    (q : Queue) (end : Option (ℕ × Bytes))
    → ((el : ℕ) (k : Bytes) → end ≡ some (el, k) → (a : Bytes) × (value_of el q.ll.elems ≡ some a))
    → (q' : Queue) (k : Bytes) → take_end q end ≡ (q', some k)
    → suc (weight q') ≤ weight q
unfolding take_end weight remove
take_end_weight q end at q' k h = elim (Option-cases end) [
  | inl e ↦ absurd (ground arith)
  | inr ((el, l), e) ↦ ground (arith, (at el l e).1, length-unlink el (at el l e).0 q.ll.elems)
]
