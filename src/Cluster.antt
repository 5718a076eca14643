-- ===== src/Cluster.antt =====
-- internal/cluster/registry.go: the nodes of the cluster, over the hash ring. Times are
-- nanoseconds; the clock's reading is an argument of each call.
pub mod Placement
use dist_cache.Base.{
  ℕ, zero, suc, ◌+◌, ◌-◌, ◌^◌, Bool, true, false, ◌||◌, Option, none, some, List, [], ◌∷◌, Bytes,
  same, bytes_eq, length, if◌then◌else◌, ltb, ◌==◌,
}
use dist_cache.Base.Assoc.{Assoc, lookup, insert, erase}
use dist_cache.Base.Int64.{ℤ, pos, negsuc, pos_part, neg_part, sub_ℕ, lez}
use dist_cache.Ring
use dist_cache.Ring.{Ring}

pub record NodeState : Type 0 where
  pub id : Bytes
  pub addr : Bytes
  pub last_seen : ℤ

-- `Node`, with its last sign of life left out of an unknown node.
pub record Node : Type 0 where
  pub id : Bytes
  pub addr : Bytes
  pub last_seen : ℤ
  pub alive : Bool
  pub self : Bool

pub record Registry : Type 0 where
  pub self_id : Bytes
  pub self_addr : Bytes
  pub rf : ℕ
  pub fail_after : ℤ
  pub nodes : Assoc Bytes NodeState
  pub ring : Ring

abbrev limited : ℕ → ℕ
limited n = if ltb n (2 ^ 63) then n else 2 ^ 63 - 1

abbrev saturated : ℤ → ℤ
saturated (pos n) = pos (limited n)
saturated (negsuc n) = negsuc (limited n)

-- `now.Sub(lastSeen)`, which stops at the ends of int64.
unfoldable pub since : ℤ → ℤ → ℤ
since now seen = saturated (sub_ℕ (pos_part now + neg_part seen) (neg_part now + pos_part seen))

unfoldable pub is_alive : Registry → NodeState → ℤ → Bool
unfolding since
is_alive g n now =
    if lez g.fail_after (pos 0) || same n.id g.self_id
    then true
    else lez (since now n.last_seen) g.fail_after

unfoldable pub node_view : Bytes → ℤ → Registry → Node
unfolding is_alive
node_view id now g = elim (lookup id g.nodes) as (λ _. Node) [
  | none ↦ record { id = id; addr = []; last_seen = pos 0; alive = false; self = false }
  | some n ↦ record {
    id = n.id;
    addr = n.addr;
    last_seen = n.last_seen;
    alive = is_alive g n now;
    self = same n.id g.self_id;
  }
]

-- `a < b` on Go strings.
unfoldable pub string_lt : Bytes → Bytes → Bool
string_lt [] [] = false
string_lt [] (b ∷ bs) = true
string_lt (a ∷ as') [] = false
string_lt (a ∷ as') (b ∷ bs) = let rest = string_lt as' bs in if a == b then rest else ltb a b

unfoldable pub put_node : Node → List Node → List Node
unfolding string_lt
put_node n [] = n ∷ []
put_node n (m ∷ ms) =
    let rest = put_node n ms in if string_lt n.id m.id then n ∷ m ∷ ms else m ∷ rest

-- The views in the order of their ids, which differ.
unfoldable pub sorted_views : Assoc Bytes NodeState → ℤ → Registry → List Node
unfolding put_node node_view
sorted_views [] now g = []
sorted_views ((id, n) ∷ rest) now g = put_node (node_view id now g) (sorted_views rest now g)

module _ (hash : Bytes → ℕ) where
  unfoldable pub add_locked : Bytes → Bytes → ℤ → Registry → Registry
  add_locked id addr now g =
      let ring = (elim (lookup id g.nodes) as (λ _. Ring) [
        | some n ↦ g.ring
        | none ↦ Ring.add hash (id ∷ []) g.ring
      ]) in
      record g {
        ring = ring;
        nodes = insert id (record { id = id; addr = addr; last_seen = now }) g.nodes;
      }

  -- `New`, of the configured number of points on the ring, 0 for its default.
  unfoldable pub new_registry : Bytes → Bytes → ℕ → ℤ → ℕ → ℤ → Registry
  unfolding add_locked
  new_registry self_id self_addr rf fail_after vnodes now =
      add_locked self_id self_addr now (record {
        self_id = self_id;
        self_addr = self_addr;
        rf = if ltb rf 1 then 1 else rf;
        fail_after = fail_after;
        nodes = [];
        ring = Ring.new_ring vnodes;
      })

  unfoldable pub add : Bytes → Bytes → ℤ → Registry → Registry
  unfolding add_locked
  add id addr now g = add_locked id addr now g

  unfoldable pub remove : Bytes → Registry → Registry
  remove id g = elim (lookup id g.nodes) as (λ _. Registry) [
    | none ↦ g
    | some n ↦ record g { nodes = erase id g.nodes; ring = Ring.remove_node hash id g.ring }
  ]

  -- A pointer to the state is changed.
  unfoldable pub heartbeat : Bytes → ℤ → Registry → Registry
  heartbeat id now g = elim (lookup id g.nodes) as (λ _. Registry) [
    | none ↦ g
    | some n ↦ record g { nodes = insert id (record n { last_seen = now }) g.nodes }
  ]

  unfoldable pub owner : Bytes → ℤ → Registry → Option Node
  unfolding node_view
  owner key now g = elim (Ring.get hash key g.ring) as (λ _. Option Node) [
    | none ↦ none
    | some id ↦ some (node_view id now g)
  ]

  -- The loop of `Replicas`, with the clock's reading of each view.
  unfoldable pub views : List Bytes → ℤ → Registry → List Node
  unfolding node_view
  views [] now g = []
  views (id ∷ ids) now g = node_view id now g ∷ views ids now g

  unfoldable pub replicas : Bytes → ℤ → Registry → List Node
  unfolding views
  replicas key now g = views (Ring.get_n hash key g.rf g.ring) now g

  unfoldable pub is_local : Bytes → Registry → Bool
  is_local key g = elim (Ring.get hash key g.ring) as (λ _. Bool) [
    | none ↦ false
    | some id ↦ same id g.self_id
  ]

unfoldable pub nodes : ℤ → Registry → List Node
unfolding sorted_views
nodes now g = sorted_views g.nodes now g

unfoldable pub self : ℤ → Registry → Node
unfolding node_view
self now g = node_view g.self_id now g

unfoldable pub size : Registry → ℕ
size g = length g.nodes
