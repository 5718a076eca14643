-- ===== src/Ring.antt =====
-- internal/hashring/hashring.go: the consistent hash ring. `hash` is CRC-32 of the Go library, and
-- `vnode` the name of a node's i-th point.
pub mod Owners
pub mod Owned
pub mod Changes
use dist_cache.Base.{
  ℕ, zero, suc, ◌+◌, ◌-◌, ◌%◌, ◌≤◌, ◌<◌, Bool, true, false, not, ◌&&◌, ◌||◌, Option, none, some,
  List, [], ◌∷◌, ◌++◌, Bytes, same, bytes_eq, nat_eq, length, take, drop, if◌then◌else◌, ltb, leb,
  ◌==◌,
}
use dist_cache.Base.Assoc.{Assoc, lookup, insert, erase}
use dist_cache.Base.Decimal.{format_nat}

pub record Ring : Type 0 where
  pub replicas : ℕ
  pub ring : List ℕ
  pub owners : Assoc ℕ Bytes
  pub nodes : List Bytes

unfoldable pub new_ring : ℕ → Ring
new_ring replicas = record {
  replicas = if replicas == 0 then 100 else replicas;
  ring = [];
  owners = [];
  nodes = [];
}

-- `node + "#" + strconv.Itoa(i)`
abbrev pub vnode_key : Bytes → ℕ → Bytes
vnode_key node i = node ++ (35 ∷ format_nat i)

abbrev pub member : Bytes → List Bytes → Bool
member k [] = false
member k (j ∷ js) = same j k || member k js

abbrev pub remove : Bytes → List Bytes → List Bytes
remove k [] = []
remove k (j ∷ js) = let rest = remove k js in if same j k then rest else j ∷ rest

unfoldable pub put_sorted : ℕ → List ℕ → List ℕ
put_sorted h [] = h ∷ []
put_sorted h (x ∷ xs) = let rest = put_sorted h xs in if ltb h x then h ∷ x ∷ xs else x ∷ rest

-- `sort.Slice` by the points: numbers in order have one arrangement.
unfoldable pub sort_points : List ℕ → List ℕ
unfolding put_sorted
sort_points [] = []
sort_points (x ∷ xs) = put_sorted x (sort_points xs)

-- `r.owners[h]`, "" for a missing point.
abbrev pub owner_of : ℕ → Assoc ℕ Bytes → Bytes
owner_of h m = elim (lookup h m) [ none ↦ [] | some node ↦ node ]

-- The point at an index of the ring.
abbrev pub point_at : ℕ → List ℕ → ℕ
point_at n [] = 0
point_at zero (x ∷ xs) = x
point_at (suc n) (x ∷ xs) = point_at n xs

-- The index of the first point not below `h`, or the length: what `sort.Search` finds on a sorted
-- slice.
unfoldable pub first_not_below : ℕ → List ℕ → ℕ
first_not_below h [] = 0
first_not_below h (x ∷ xs) = let rest = first_not_below h xs in if leb h x then 0 else suc rest

unfoldable pub search : ℕ → List ℕ → ℕ
unfolding first_not_below
search h ring = let i = first_not_below h ring in if i == length ring then 0 else i

module _ (hash : Bytes → ℕ) where
  -- `for i := 0; i < r.replicas; i++`, over the last `n` of the indices.
  unfoldable pub add_points : ℕ → ℕ → Bytes → Ring → Ring
  add_points zero i node r = r
  add_points (suc n) i node r =
      let h = hash (vnode_key node i) in
      add_points n (i + 1) node
        (record r { owners = insert h node r.owners; ring = r.ring ++ h ∷ [] })

  unfoldable pub add_nodes : List Bytes → Ring → Ring
  unfolding add_points
  add_nodes [] r = r
  add_nodes (node ∷ rest) r =
      if member node r.nodes
      then add_nodes rest r
      else add_nodes rest (add_points r.replicas 0 node (record r { nodes = r.nodes ++ node ∷ [] }))

  unfoldable pub add : List Bytes → Ring → Ring
  unfolding add_nodes sort_points
  add nodes r = let r' = add_nodes nodes r in record r' { ring = sort_points r'.ring }

  unfoldable pub drop_owners : ℕ → ℕ → Bytes → Assoc ℕ Bytes → Assoc ℕ Bytes
  drop_owners zero i node m = m
  drop_owners (suc n) i node m = drop_owners n (i + 1) node (erase (hash (vnode_key node i)) m)

  -- The points that still have an owner.
  unfoldable pub kept : Assoc ℕ Bytes → List ℕ → List ℕ
  kept m [] = []
  kept m (h ∷ hs) = let rest = kept m hs in elim (lookup h m) [ none ↦ rest | some node ↦ h ∷ rest ]

  unfoldable pub remove_node : Bytes → Ring → Ring
  unfolding drop_owners kept
  remove_node node r =
      let owners = drop_owners r.replicas 0 node r.owners in
      if not (member node r.nodes)
      then r
      else record r { nodes = remove node r.nodes; owners = owners; ring = kept owners r.ring }

  unfoldable pub get : Bytes → Ring → Option Bytes
  unfolding search
  get key r =
      if length r.ring == 0
      then none
      else some (owner_of (point_at (search (hash key) r.ring) r.ring) r.owners)

  -- The loop of `GetN`, over the points in the order it meets them.
  unfoldable pub distinct_owners : Assoc ℕ Bytes → ℕ → List ℕ → List Bytes → List Bytes
  distinct_owners m n [] out = out
  distinct_owners m n (h ∷ hs) out =
      if not (ltb (length out) n)
      then out
      else if member (owner_of h m) out
      then distinct_owners m n hs out
      else distinct_owners m n hs (out ++ owner_of h m ∷ [])

  unfoldable pub get_n : Bytes → ℕ → Ring → List Bytes
  unfolding search distinct_owners
  get_n key n r =
      let start = search (hash key) r.ring in
      let n' = (if ltb (length r.nodes) n then length r.nodes else n) in
      if (length r.ring == 0) || (n == 0)
      then []
      else distinct_owners r.owners n' (drop start r.ring ++ take start r.ring) []

-- `Len`.
unfoldable pub len : Ring → ℕ
len r = length r.nodes
