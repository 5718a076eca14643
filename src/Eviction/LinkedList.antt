-- ===== src/Eviction/LinkedList.antt =====
-- container/list as the eviction policies use it: a doubly linked list whose elements are known
-- by their handle (the `*list.Element`), which stays the same when an element moves.
use dist_cache.Base.{
  ℕ, suc, ◌+◌, ◌≤◌, ◌≡◌, refl, ◌≢◌, ite, Option, none, some, List, [], ◌∷◌, ◌++◌, arith, ℕ_discrete,
  length, DecEq,
}

module _ {ℓ} {A : Type ℓ} where
  -- Takes the element with the handle out.
  unfoldable pub unlink : ℕ → List (ℕ × A) → List (ℕ × A)
  unlink i [] = []
  unlink i ((j, a) ∷ es) = ite (ℕ_discrete j i) es ((j, a) ∷ unlink i es)

  unfoldable pub value_of : ℕ → List (ℕ × A) → Option A
  value_of i [] = none
  value_of i ((j, a) ∷ es) = ite (ℕ_discrete j i) (some a) (value_of i es)

  unfoldable pub last : List (ℕ × A) → Option (ℕ × A)
  last [] = none
  last (e ∷ []) = some e
  last (e ∷ e' ∷ es) = last (e' ∷ es)

  unfoldable pub first : List (ℕ × A) → Option (ℕ × A)
  first [] = none
  first (e ∷ es) = some e

pub record LinkedList {ℓ} (A : Type ℓ) : Type ℓ where
  -- the next fresh handle
  pub next : ℕ
  -- front to back
  pub elems : List (ℕ × A)

module _ {ℓ} {A : Type ℓ} where
  -- Both return the new element.
  unfoldable pub push_back : A → LinkedList A → LinkedList A × ℕ
  push_back a l = (record { next = l.next + 1; elems = l.elems ++ (l.next, a) ∷ [] }, l.next)

  unfoldable pub push_front : A → LinkedList A → LinkedList A × ℕ
  push_front a l = (record { next = l.next + 1; elems = (l.next, a) ∷ l.elems }, l.next)

  unfoldable pub remove : ℕ → LinkedList A → LinkedList A
  remove i l = record l { elems = unlink i l.elems }

  unfoldable pub move_to_front : ℕ → LinkedList A → LinkedList A
  move_to_front i l = elim (value_of i l.elems) [
    | none ↦ l
    | some a ↦ record l { elems = (i, a) ∷ unlink i l.elems }
  ]

-- The handle of the first element that holds a value.
module _ {ℓ} {A : Type ℓ} ⦃d : DecEq A⦄ where
  unfoldable pub handle_of : A → List (ℕ × A) → Option ℕ
  handle_of a [] = none
  handle_of a ((i, b) ∷ es) = ite (d.dec b a) (some i) (handle_of a es)

  -- Handles and values are distinct, and the handles lie below the next fresh one.
  abbrev pub IsLinked : ℕ → List (ℕ × A) → Type ℓ
  IsLinked n [] = Unit
  IsLinked n ((i, a) ∷ es) =
      (suc i ≤ n) × (value_of i es ≡ none) × (handle_of a es ≡ none) × IsLinked n es

  pub value_of-handle_of :
      (n : ℕ) (a : A) (i : ℕ) (es : List (ℕ × A))
      → IsLinked n es
      → handle_of a es ≡ some i
      → value_of i es ≡ some a
  unfolding handle_of value_of
  value_of-handle_of n a i [] w h = absurd (ground arith)
  value_of-handle_of n a i ((j, b) ∷ es) w h = ground (arith, value_of-handle_of n a i es w.3)

  pub value_of-unlink :
      (i j : ℕ) (es : List (ℕ × A)) → value_of j es ≡ none → value_of j (unlink i es) ≡ none
  unfolding value_of unlink
  value_of-unlink i j [] h = refl
  value_of-unlink i j ((k, b) ∷ es) h = ground (arith, value_of-unlink i j es)

  handle_of-unlink-none :
      (i : ℕ) (a : A) (es : List (ℕ × A)) → handle_of a es ≡ none → handle_of a (unlink i es) ≡ none
  unfolding handle_of unlink
  handle_of-unlink-none i a [] h = refl
  handle_of-unlink-none i a ((k, b) ∷ es) h = ground (arith, handle_of-unlink-none i a es)

  pub IsLinked-unlink : (n i : ℕ) (es : List (ℕ × A)) → IsLinked n es → IsLinked n (unlink i es)
  unfolding unlink
  IsLinked-unlink n i [] w = tt
  IsLinked-unlink n i ((j, b) ∷ es) w =
      ground
        (arith, IsLinked-unlink n i es w.3, value_of-unlink i j es, handle_of-unlink-none i b es)

  held-handle_of :
      (i : ℕ) (a : A) (es : List (ℕ × A)) → value_of i es ≡ some a → handle_of a es ≢ none
  unfolding handle_of value_of
  held-handle_of i a [] h = λ e. ground arith
  held-handle_of i a ((j, b) ∷ es) h = λ e. ground (arith, held-handle_of i a es)

  pub handle_of-value_of :
      (n i : ℕ) (a : A) (es : List (ℕ × A))
      → IsLinked n es
      → value_of i es ≡ some a
      → handle_of a es ≡ some i
  unfolding handle_of value_of
  handle_of-value_of n i a [] w h = absurd (ground arith)
  handle_of-value_of n i a ((j, b) ∷ es) w h =
      ground (arith, handle_of-value_of n i a es w.3, held-handle_of i a es)

  -- Taking out the element of a value takes out that value and no other.
  pub handle_of-unlink :
      (n i : ℕ) (a c : A) (es : List (ℕ × A))
      → IsLinked n es
      → value_of i es ≡ some a
      → handle_of c (unlink i es) ≡ ite (d.dec a c) none (handle_of c es)
  unfolding handle_of value_of unlink
  handle_of-unlink n i a c [] w h = absurd (ground arith)
  handle_of-unlink n i a c ((j, b) ∷ es) w h =
      ground (arith, handle_of-unlink n i a c es w.3, held-handle_of i a es)

  pub length-unlink :
      (i : ℕ) (a : A) (es : List (ℕ × A))
      → value_of i es ≡ some a
      → length (unlink i es) + 1 ≡ length es
  unfolding value_of unlink
  length-unlink i a [] h = absurd (ground arith)
  length-unlink i a ((j, b) ∷ es) h = ground (arith, length-unlink i a es)

  pub value_of-below : (n i : ℕ) (es : List (ℕ × A)) → IsLinked n es → n ≤ i → value_of i es ≡ none
  unfolding value_of
  value_of-below n i [] w h = refl
  value_of-below n i ((j, b) ∷ es) w h = ground (arith, value_of-below n i es w.3)

  pub value_of-unlink_self :
      (n i : ℕ) (es : List (ℕ × A)) → IsLinked n es → value_of i (unlink i es) ≡ none
  unfolding value_of unlink
  value_of-unlink_self n i [] w = refl
  value_of-unlink_self n i ((j, b) ∷ es) w = ground (arith, value_of-unlink_self n i es w.3)

  pub IsLinked-mono : (n : ℕ) (es : List (ℕ × A)) → IsLinked n es → IsLinked (n + 1) es
  IsLinked-mono n [] w = tt
  IsLinked-mono n ((j, b) ∷ es) w = ground (arith, IsLinked-mono n es w.3)

  value_of-snoc :
      (i j : ℕ) (a : A) (es : List (ℕ × A))
      → value_of i es ≡ none
      → i ≢ j
      → value_of i (es ++ (j, a) ∷ []) ≡ none
  unfolding value_of
  value_of-snoc i j a [] h e = ground arith
  value_of-snoc i j a ((k, b) ∷ es) h e = ground (arith, value_of-snoc i j a es)

  pub handle_of-snoc :
      (j : ℕ) (a c : A) (es : List (ℕ × A))
      → handle_of a es ≡ none
      → handle_of c (es ++ (j, a) ∷ []) ≡ ite (d.dec a c) (some j) (handle_of c es)
  unfolding handle_of
  handle_of-snoc j a c [] h = refl
  handle_of-snoc j a c ((k, b) ∷ es) h = ground (arith, handle_of-snoc j a c es)

  pub IsLinked-snoc :
      (n : ℕ) (a : A) (es : List (ℕ × A))
      → IsLinked n es
      → handle_of a es ≡ none
      → IsLinked (n + 1) (es ++ (n, a) ∷ [])
  unfolding handle_of value_of
  IsLinked-snoc n a [] w h = (ground arith, refl, refl, tt)
  IsLinked-snoc n a ((j, b) ∷ es) w h =
      ground (arith, IsLinked-snoc n a es w.3, value_of-snoc j n a es, handle_of-snoc n a b es)

  pub value_of-last :
      (n i : ℕ) (a : A) (es : List (ℕ × A))
      → IsLinked n es
      → last es ≡ some (i, a)
      → value_of i es ≡ some a
  unfolding value_of last
  value_of-last n i a [] w h = absurd (ground arith)
  value_of-last n i a ((j, b) ∷ []) w h = ground arith
  value_of-last n i a ((j, b) ∷ e ∷ es) w h = ground (arith, value_of-last n i a (e ∷ es) w.3)
