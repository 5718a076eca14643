-- ===== src/Tests/Rings.antt =====
-- internal/hashring and the registry over it, at concrete inputs.
use dist_cache.Base.{
  ℕ, ◌≤◌, ◌+◌, ◌≡◌, refl, true, false, some, List, [], ◌∷◌, Bytes, length, Bytes-discrete,
  ℕ_discrete, bytes_eq,
}
use dist_cache.Base.Assoc.{lookup, insert}
use dist_cache.Base.Decimal.{format_nat, digits}
use dist_cache.Base.Int64.{pos}
use dist_cache.Cluster
use dist_cache.Cluster.{
  Node, NodeState, Registry, owner, new_registry, add_locked, heartbeat, node_view, is_alive, since,
}
use dist_cache.Cluster.Placement.{Call, added, heard_of, run_all, owner-registered}
use dist_cache.Ring
use dist_cache.Ring.{
  Ring, new_ring, add, get_n, add_nodes, add_points, put_sorted, sort_points, first_not_below,
  search,
}
use dist_cache.Ring.Owners.{AllDistinct, get_n-AllDistinct}

-- The sum of the bytes.
abbrev sum : Bytes → ℕ
sum [] = 0
sum (b ∷ bs) = b + sum bs

abbrev two_nodes : Ring
two_nodes = add sum ((97 ∷ []) ∷ (98 ∷ []) ∷ []) (new_ring 2)

get_n-AllDistinct_example :
    AllDistinct (get_n sum (1 ∷ []) 3 two_nodes)
    × (length (get_n sum (1 ∷ []) 3 two_nodes) ≤ 3)
    × (length (get_n sum (1 ∷ []) 3 two_nodes) ≤ length two_nodes.nodes)
get_n-AllDistinct_example = get_n-AllDistinct sum (1 ∷ []) 3 two_nodes

-- The node "a", and then "b", on one point each: 97 + 35 + 48 and 98 + 35 + 48.
abbrev changes : List Call
changes = added (98 ∷ []) (2 ∷ []) (pos 7) ∷ heard_of (98 ∷ []) (pos 9) ∷ []

abbrev registry : Registry
registry = run_all sum changes (new_registry sum (97 ∷ []) (1 ∷ []) 2 (pos 5) 1 (pos 0))

abbrev found : Node
found = record { id = 98 ∷ []; addr = 2 ∷ []; last_seen = pos 9; alive = true; self = false }

found_lem : owner sum (181 ∷ []) (pos 10) registry ≡ some found
unfolding owner new_registry add_locked Cluster.add heartbeat node_view is_alive since Ring.new_ring
    Ring.add add_nodes add_points put_sorted sort_points first_not_below search Ring.get format_nat
    digits lookup insert Bytes-discrete ℕ_discrete
found_lem = refl

owner-registered_example :
    (n : NodeState) × (lookup found.id registry.nodes ≡ some n) × (found.addr ≡ n.addr)
owner-registered_example =
    owner-registered sum (97 ∷ []) (1 ∷ []) 2 (pos 5) 1 (pos 0) changes (181 ∷ []) (pos 10) found
      found_lem
