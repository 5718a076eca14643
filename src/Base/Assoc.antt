-- ===== src/Base/Assoc.antt =====
-- A Go map as an association list. The order of the list stands for the order of a `range` loop,
-- which Go leaves open.
use Prim.Native.Nat.{ℕ, ◌+◌}
use mathlib.Core.Path.{◌≡◌, refl}
use mathlib.Core.Logic.{ite}
use mathlib.Core.Option.{Option, none, some}
use mathlib.Core.List.{List, [], ◌∷◌}
use native.Mathlib.Omega.{arith}
use dist_cache.Base.Tests.{DecEq}

abbrev pub Assoc {ℓ} : Type ℓ → Type ℓ → Type ℓ
Assoc K V = List (K × V)

module _ {ℓ} {K V : Type ℓ} ⦃d : DecEq K⦄ where
  unfoldable pub lookup : K → Assoc K V → Option V
  lookup k [] = none
  lookup k ((j, v) ∷ m) = ite (d.dec j k) (some v) (lookup k m)

  -- `m[k] = v`
  unfoldable pub insert : K → V → Assoc K V → Assoc K V
  insert k v [] = (k, v) ∷ []
  insert k v ((j, w) ∷ m) = ite (d.dec j k) ((k, v) ∷ m) ((j, w) ∷ insert k v m)

  -- `delete(m, k)`
  unfoldable pub erase : K → Assoc K V → Assoc K V
  erase k [] = []
  erase k ((j, w) ∷ m) = let rest = erase k m in ite (d.dec j k) rest ((j, w) ∷ rest)

  pub lookup-insert :
      (k j : K) (v : V) (m : Assoc K V)
      → lookup j (insert k v m) ≡ ite (d.dec k j) (some v) (lookup j m)
  unfolding lookup insert
  lookup-insert k j v [] = refl
  lookup-insert k j v ((i, w) ∷ m) = ground (arith, lookup-insert k j v m)

  pub lookup-erase :
      (k j : K) (m : Assoc K V) → lookup j (erase k m) ≡ ite (d.dec k j) none (lookup j m)
  unfolding lookup erase
  lookup-erase k j [] = ground arith
  lookup-erase k j ((i, w) ∷ m) = ground (arith, lookup-erase k j m)

  -- Every key is bound once.
  abbrev pub Distinct : Assoc K V → Type ℓ
  Distinct [] = Unit
  Distinct ((j, w) ∷ m) = (lookup j m ≡ none) × Distinct m

  pub Distinct-insert : (k : K) (v : V) (m : Assoc K V) → Distinct m → Distinct (insert k v m)
  unfolding lookup insert
  Distinct-insert k v [] h = (refl, tt)
  Distinct-insert k v ((j, w) ∷ m) h =
      ground (arith, lookup-insert k j v m, Distinct-insert k v m h.1)

  pub Distinct-erase : (k : K) (m : Assoc K V) → Distinct m → Distinct (erase k m)
  unfolding lookup erase
  Distinct-erase k [] h = tt
  Distinct-erase k ((j, w) ∷ m) h = ground (arith, lookup-erase k j m, Distinct-erase k m h.1)

  pub erase_absent : (k : K) (m : Assoc K V) → lookup k m ≡ none → erase k m ≡ m
  unfolding lookup erase
  erase_absent k [] h = refl
  erase_absent k ((j, w) ∷ m) h = ground (arith, erase_absent k m)

module _ {ℓ} {K V : Type ℓ} ⦃d : DecEq K⦄ (f : K → V → ℕ) where
  -- The sum of `f` over the bindings.
  unfoldable pub total : Assoc K V → ℕ
  total [] = 0
  total ((k, v) ∷ m) = f k v + total m

  pub total-insert_new :
      (k : K) (v : V) (m : Assoc K V) → lookup k m ≡ none → total (insert k v m) ≡ total m + f k v
  unfolding lookup insert total
  total-insert_new k v [] h = omega arith
  total-insert_new k v ((j, w) ∷ m) h = ground (arith, total-insert_new k v m)

  pub total-insert_old :
      (k : K) (v w : V) (m : Assoc K V)
      → lookup k m ≡ some w
      → total (insert k v m) + f k w ≡ total m + f k v
  unfolding lookup insert total
  total-insert_old k v w [] h = absurd (ground arith)
  total-insert_old k v w ((j, u) ∷ m) h = ground (arith, total-insert_old k v w m)

  pub total-erase :
      (k : K) (w : V) (m : Assoc K V)
      → Distinct m
      → lookup k m ≡ some w
      → total (erase k m) + f k w ≡ total m
  unfolding lookup erase total
  total-erase k w [] u h = absurd (ground arith)
  total-erase k w ((j, v) ∷ m) u h = ground (arith, total-erase k w m u.1, erase_absent k m)
