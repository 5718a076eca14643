-- ===== src/Eviction/Policy.antt =====
-- policy.go: the interface between a shard and its eviction policy, as operations, and the laws
-- that a policy which tracks its keys promises the shard.
use dist_cache.Base.{
  ap, ◌<◌, ℕ, ◌≡◌, ◌≢◌, ite, Bool, true, false, Option, none, some, Bytes, Bytes-discrete,
}
use dist_cache.Base.Int64.{ℤ}

-- `Policy`, with the optional `ExpiryAware` beside it.
pub record Policy : Type 1 where
  pub State : Type 0
  pub init : State
  pub add : State → Bytes → State
  pub access : State → Bytes → State
  pub remove : State → Bytes → State
  -- the new state, and the victim if there is one
  pub evict : State → State × Option Bytes
  pub len : State → ℕ
  -- how many entries a state stores: no part of the interface, but a bound on its victims
  pub weight : State → ℕ
  -- `none` where the policy is no `ExpiryAware`
  pub note : Option (State → Bytes → ℤ → State)

abbrev pub note_with : {S : Type 0} → Option (S → Bytes → ℤ → S) → S → Bytes → ℤ → S
note_with none s k e = s
note_with (some f) s k e = f s k e

-- Every victim leaves the state with fewer entries.
pub record Bounded (p : Policy) : Type 1 where
  pub evict_weight :
      (s : p.State) (k : Bytes) → (p.evict s).1 ≡ some k → p.weight (p.evict s).0 < p.weight s

-- A policy that tracks its keys: which keys a state holds, and how the operations change them.
pub record Tracking (p : Policy) : Type 1 where
  pub IsValid : p.State → Type 0
  pub holds : p.State → Bytes → Bool
  pub init-IsValid : IsValid p.init
  pub holds-init : (k : Bytes) → holds p.init k ≡ false
  pub add-IsValid : (s : p.State) (k : Bytes) → IsValid s → IsValid (p.add s k)
  pub access-IsValid : (s : p.State) (k : Bytes) → IsValid s → IsValid (p.access s k)
  pub remove-IsValid : (s : p.State) (k : Bytes) → IsValid s → IsValid (p.remove s k)
  pub evict-IsValid : (s : p.State) → IsValid s → IsValid (p.evict s).0
  pub note-IsValid :
      (s : p.State) (k : Bytes) (e : ℤ) → IsValid s → IsValid (note_with p.note s k e)
  pub holds-add :
      (s : p.State) (k j : Bytes)
      → IsValid s
      → holds (p.add s k) j ≡ ite (Bytes-discrete k j) true (holds s j)
  pub holds-access : (s : p.State) (k j : Bytes) → IsValid s → holds (p.access s k) j ≡ holds s j
  pub holds-remove :
      (s : p.State) (k j : Bytes)
      → IsValid s
      → holds (p.remove s k) j ≡ ite (Bytes-discrete k j) false (holds s j)
  pub holds-note :
      (s : p.State) (k j : Bytes) (e : ℤ)
      → IsValid s
      → holds s k ≡ true
      → holds (note_with p.note s k e) j ≡ holds s j
  -- a victim is a held key, which is held no more; the other keys stay
  pub victim_held :
      (s : p.State) (k : Bytes) → IsValid s → (p.evict s).1 ≡ some k → holds s k ≡ true
  pub holds-evict :
      (s : p.State) (k j : Bytes)
      → IsValid s
      → (p.evict s).1 ≡ some k
      → holds (p.evict s).0 j ≡ ite (Bytes-discrete k j) false (holds s j)
  -- only a state that holds nothing has no victim
  pub no_victim : (s : p.State) (j : Bytes) → IsValid s → (p.evict s).1 ≡ none → holds s j ≡ false
  pub no_victim_state :
      (s : p.State) (j : Bytes) → (p.evict s).1 ≡ none → holds (p.evict s).0 j ≡ holds s j

-- A policy that names the key used last only when it holds no other.
pub record Recency (p : Policy) (t : Tracking p) : Type 1 where
  pub IsNewest : p.State → Bytes → Type 0
  pub add_newest : (s : p.State) (k : Bytes) → t.IsValid s → IsNewest (p.add s k) k
  pub access_newest :
      (s : p.State) (k : Bytes) → t.IsValid s → t.holds s k ≡ true → IsNewest (p.access s k) k
  pub note_newest :
      (s : p.State) (k : Bytes) (e : ℤ) → IsNewest s k → IsNewest (note_with p.note s k e) k
  pub evict_newest :
      (s : p.State) (k j : Bytes)
      → t.IsValid s
      → IsNewest s k
      → (p.evict s).1 ≡ some j
      → k ≢ j
      → IsNewest (p.evict s).0 k
  pub newest_last :
      (s : p.State) (k j : Bytes)
      → t.IsValid s
      → IsNewest s k
      → (p.evict s).1 ≡ some k
      → t.holds s j ≡ true
      → k ≡ j

-- A victim found, as an equation about the whole result.
pub evict_path : {S : Type 0} (r : S × Option Bytes) (o : Option Bytes) → r.1 ≡ o → r ≡ (r.0, o)
evict_path r o e = ap (λ (x : Option Bytes). (r.0, x)) e
