-- ===== src/Tests/Heaps.antt =====
-- A heap as a plain list, to run the policy TTL of internal/eviction on.
use dist_cache.Base.{
  ◌<◌, ◌≡◌, refl, sym, ap, subst, Bool, true, false, ◌&&◌, ◌||◌, Option, none, some, List, [], ◌∷◌,
  length, arith, Bytes-discrete, bytes_eq, ℕ_discrete, same, Option-cases, Bool-cases, inl, inr,
  ◌⊎◌, if◌then◌else◌,
}
use dist_cache.Base.Assoc.{lookup, insert, erase}
use dist_cache.Base.Int64.{ℤ, pos, lez}
use dist_cache.Eviction.Policy.{note_with}
use dist_cache.Eviction.Ttl.{TtlItem, HeapOps, same_time, put, note, evict, evict_loop, remove}
use dist_cache.Eviction.Ttl.Order.{
  IsHeap, Outcome, evict-Outcome, same_time_refl, same_time-eq, item_eq,
}
use dist_cache.Eviction.Ttl.Laws.{ttl}

unfoldable is_item : TtlItem → TtlItem → Bool
is_item x y = same x.key y.key && same_time x.expire_at y.expire_at

is_item_refl : (x : TtlItem) → is_item x x ≡ true
unfolding is_item
is_item_refl x = ground (arith, same_time_refl x.expire_at)

is_item-eq : (x y : TtlItem) → is_item x y ≡ true → y ≡ x
unfolding is_item
is_item-eq x y h = sym (item_eq x.key y.key x.expire_at y.expire_at same_key same_expiry)
  where
    same_key : x.key ≡ y.key
    same_key = ground (arith, h)

    same_expiry : x.expire_at ≡ y.expire_at
    same_expiry = same_time-eq x.expire_at y.expire_at (ground (arith, h))

unfoldable among : List TtlItem → TtlItem → Bool
among [] y = false
among (x ∷ xs) y = is_item x y || among xs y

unfoldable pop_with :
    TtlItem → List TtlItem → Option (TtlItem × List TtlItem) → TtlItem × List TtlItem
pop_with x xs none = (x, [])
pop_with x xs (some (y, ys)) = if lez x.expire_at y.expire_at then (x, xs) else (y, x ∷ ys)

unfoldable pop_min : List TtlItem → Option (TtlItem × List TtlItem)
pop_min [] = none
pop_min (x ∷ xs) = some (pop_with x xs (pop_min xs))

pop_nothing : (h : List TtlItem) (y : TtlItem) → pop_min h ≡ none → among h y ≡ false
unfolding pop_min among
pop_nothing [] y e = refl
pop_nothing (x ∷ xs) y e = absurd (ground (arith, e))

some_eq : {A : Type 0} (a b : A) → some a ≡ some b → a ≡ b
some_eq a b e = ground (arith, e)

-- What `pop_min` takes out, what it leaves, and that it takes a least item.
Popped : List TtlItem → TtlItem × List TtlItem → Type 0
Popped h r =
    ((y : TtlItem) → among h y ≡ true → (y ≡ r.0) ⊎ (among r.1 y ≡ true))
    × ((y : TtlItem) → among h y ≡ true → lez r.0.expire_at y.expire_at ≡ true)
    × (length r.1 < length h)

lez_trans : (a b c : ℤ) → lez a b ≡ true → lez b c ≡ true → lez a c ≡ true
lez_trans a b c h g = ground (arith, h, g)

pop_with-Popped :
    (x : TtlItem) (xs : List TtlItem) (m : Option (TtlItem × List TtlItem))
    → ((m ≡ none) × ((y : TtlItem) → among xs y ≡ false))
      ⊎ ((r : TtlItem × List TtlItem) × (m ≡ some r) × Popped xs r)
    → Popped (x ∷ xs) (pop_with x xs m)
unfolding Popped pop_with among
pop_with-Popped x xs m (inl (e, nothing)) =
    rw (e, pop_with)
      (
        (λ y h. inl (is_item-eq x y (ground (arith, h, nothing y)))),
        (λ y h. ground (
          arith,
          ap (λ (z : TtlItem). z.expire_at) (is_item-eq x y (ground (arith, h, nothing y))),
        )),
        omega arith,
      )
pop_with-Popped x xs m (inr (r, e, (keeps, least, size))) =
    elim (Bool-cases (lez x.expire_at r.0.expire_at)) [
      | inl c ↦
          rw (e, pop_with, c)
            (
              (λ y h. elim (Bool-cases (is_item x y)) [
                | inl i ↦ inl (is_item-eq x y i)
                | inr i ↦ inr (ground (arith, h, i))
              ]),
              (λ y h. elim (Bool-cases (is_item x y)) [
                | inl i ↦ ground (arith, ap (λ (z : TtlItem). z.expire_at) (is_item-eq x y i))
                | inr i ↦
                    lez_trans x.expire_at r.0.expire_at y.expire_at c
                      (least y (ground (arith, h, i)))
              ]),
              omega arith,
            )
      | inr c ↦
          rw (e, pop_with, c)
            (
              (λ y h. elim (Bool-cases (is_item x y)) [
                | inl i ↦ inr (ground (arith, i))
                | inr i ↦ elim (keeps y (ground (arith, h, i))) [
                  | inl z ↦ inl z
                  | inr z ↦ inr (ground (arith, z, i))
                ]
              ]),
              (λ y h. elim (Bool-cases (is_item x y)) [
                | inl i ↦ ground (arith, c, ap (λ (z : TtlItem). z.expire_at) (is_item-eq x y i))
                | inr i ↦ least y (ground (arith, h, i))
              ]),
              omega (arith, size),
            )
    ]

pop_min-Popped : (h : List TtlItem) (r : TtlItem × List TtlItem) → pop_min h ≡ some r → Popped h r
unfolding pop_min
pop_min-Popped [] r e = absurd (ground (arith, e))
pop_min-Popped (x ∷ xs) r e = subst (Popped (x ∷ xs)) (some_eq (pop_with x xs (pop_min xs)) r e) (
    pop_with-Popped x xs (pop_min xs) (elim (Option-cases (pop_min xs)) [
      | inl z ↦ inl (z, λ y. pop_nothing xs y z)
      | inr (t, z) ↦ inr (t, z, pop_min-Popped xs t z)
    ]))

abbrev lists : HeapOps
lists = record {
  Heap = List TtlItem;
  empty = [];
  size = length;
  push = λ h x. x ∷ h;
  pop = pop_min;
}

lists-IsHeap : IsHeap lists
unfolding among Popped
lists-IsHeap = record {
  has = among;
  pushed = λ h x. ground (arith, is_item_refl x);
  push_keeps = λ h x y a. ground (arith, a);
  pop_nothing = pop_nothing;
  pop_keeps = λ h h' x y e a. (pop_min-Popped h (x, h') e).0 y a;
  pop_least = λ h h' x y e a. (pop_min-Popped h (x, h') e).1 y a;
  pop_size = λ h h' x e. (pop_min-Popped h (x, h') e).2;
}

-- The key 1 was to expire at 5, and now at 9; the key 2 expires at 7.
abbrev two_times : (ttl lists lists-IsHeap).State
two_times =
    let p = ttl lists lists-IsHeap in
    note_with p.note (note_with p.note (note_with p.note p.init (1 ∷ []) (pos 5)) (2 ∷ []) (pos 7))
      (1 ∷ []) (pos 9)

second_goes : (evict lists two_times.0).1 ≡ some (2 ∷ [])
unfolding evict evict_loop remove note put pop_min pop_with lookup insert erase Bytes-discrete
    ℕ_discrete
second_goes = refl

evict-Outcome_example : Outcome lists lists-IsHeap two_times.0 (evict lists two_times.0)
evict-Outcome_example = evict-Outcome lists lists-IsHeap two_times.0 two_times.1
