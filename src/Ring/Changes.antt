-- ===== src/Ring/Changes.antt =====
-- Add and Remove keep every point of the ring with a node that is in it.
use dist_cache.Base.{
  ℕ, zero, suc, ◌+◌, ◌<◌, ◌≤◌, ◌≡◌, ◌≢◌, refl, ap, ◌∙◌, subst, Bool-cases, Option-cases, inl, inr,
  true, false, ◌||◌, some, List, [], ◌∷◌, ◌++◌, Bytes, same, bytes_eq, nat_eq, ℕ_discrete, All,
  if◌then◌else◌, arith,
}
use dist_cache.Base.Assoc.{Assoc, lookup, insert, erase, lookup-insert, lookup-erase}
use dist_cache.Ring.{
  Ring, vnode_key, member, remove, add_points, add_nodes, add, drop_owners, kept, remove_node,
}
use dist_cache.Ring.Owned.{HasOwner, IsOwned, All-sort_points}

same→eq : (a b : Bytes) → same a b ≡ true → a ≡ b
same→eq a b h = ground arith

pub member-snoc :
    (k j : Bytes) (js : List Bytes) → member k (js ++ j ∷ []) ≡ (member k js || same j k)
member-snoc k j [] = ground arith
member-snoc k j (i ∷ js) = ground (arith, member-snoc k j js)

pub member-remove :
    (k j : Bytes) (js : List Bytes)
    → member k (remove j js) ≡ (if same j k then false else member k js)
member-remove k j [] = ground arith
member-remove k j (i ∷ js) = ground (arith, member-remove k j js)

inserted_owner :
    (p h : ℕ) (node n : Bytes) (m : Assoc ℕ Bytes)
    → p ≡ h
    → lookup h (insert p node m) ≡ some n
    → node ≡ n
inserted_owner p h node n m at e = ground (arith, lookup-insert p h node m, at, e)

erased_owner : (p h : ℕ) (n : Bytes) (m : Assoc ℕ Bytes) → p ≡ h → lookup h (erase p m) ≡ some n → ⊥
erased_owner p h n m at e = ground (arith, lookup-erase p h m, at, e)

HasOwner-insert :
    (h : ℕ) (n : Bytes) (m : Assoc ℕ Bytes) (hs : List ℕ)
    → All (HasOwner m) hs
    → All (HasOwner (insert h n m)) (hs ++ h ∷ [])
HasOwner-insert h n m [] a = ((n, ground (arith, lookup-insert h h n m)), tt)
HasOwner-insert h n m (x ∷ hs) a =
    let (o, e) = a.0 in
    (
      elim (ℕ_discrete h x) [
        | yes same_point ↦ (n, ground (arith, lookup-insert h x n m, same_point))
        | no other ↦ (o, ground (arith, lookup-insert h x n m, other, e))
      ],
      HasOwner-insert h n m hs a.1,
    )

module _ (hash : Bytes → ℕ) where
  -- One more point of a node that is in the ring.
  add_point-IsOwned :
      (i : ℕ) (node : Bytes) (r : Ring)
      → member node r.nodes ≡ true
      → i < r.replicas
      → IsOwned hash r
      → IsOwned hash (record r {
        owners = insert (hash (vnode_key node i)) node r.owners;
        ring = r.ring ++ hash (vnode_key node i) ∷ [];
      })
  add_point-IsOwned i node r here lt o =
      let p = hash (vnode_key node i) in
      record {
        known = λ h n e. elim (ℕ_discrete p h) [
          | yes at ↦
              subst (λ x. member x r.nodes ≡ true) (inserted_owner p h node n r.owners at e) here
          | no off ↦ o.known h n (ground (arith, lookup-insert p h node r.owners, off, e))
        ];
        placed = λ h n e. elim (ℕ_discrete p h) [
          | yes at ↦
              subst (λ x. (j : ℕ) × (j < r.replicas) × (hash (vnode_key x j) ≡ h))
                (inserted_owner p h node n r.owners at e) (i, lt, at)
          | no off ↦ o.placed h n (ground (arith, lookup-insert p h node r.owners, off, e))
        ];
        owned = HasOwner-insert p node r.owners r.ring o.owned;
      }

  add_points-IsOwned :
      (k i : ℕ) (node : Bytes) (r : Ring)
      → member node r.nodes ≡ true
      → i + k ≤ r.replicas
      → IsOwned hash r
      → IsOwned hash (add_points hash k i node r)
  unfolding add_points
  add_points-IsOwned zero i node r here le o = o
  add_points-IsOwned (suc k) i node r here le o =
      add_points-IsOwned k (i + 1) node _ here (omega (arith, le))
        (add_point-IsOwned i node r here (omega (arith, le)) o)

  nodes-add_points :
      (k i : ℕ) (node : Bytes) (r : Ring) → (add_points hash k i node r).nodes ≡ r.nodes
  unfolding add_points
  nodes-add_points zero i node r = refl
  nodes-add_points (suc k) i node r = nodes-add_points k (i + 1) node _

  -- What is left of the owners, without the points of a node.
  lookup-drop_owners :
      (k i : ℕ) (node : Bytes) (m : Assoc ℕ Bytes) (h : ℕ) (n : Bytes)
      → lookup h (drop_owners hash k i node m) ≡ some n
      → (lookup h m ≡ some n) × ((t : ℕ) → i ≤ t → t < i + k → hash (vnode_key node t) ≢ h)
  unfolding drop_owners
  lookup-drop_owners zero i node m h n e = (e, λ t lo hi. absurd (omega (arith, lo, hi)))
  lookup-drop_owners (suc k) i node m h n e =
      let p = hash (vnode_key node i) in
      let (left, others) = lookup-drop_owners k (i + 1) node (erase p m) h n e in
      (
        ground (arith, lookup-erase p h m, left),
        λ t lo hi. elim (ℕ_discrete i t) [
          | yes first ↦ λ q. erased_owner p h n m (ap (λ x. hash (vnode_key node x)) first ∙ q) left
          | no later ↦ others t (omega (arith, lo, later)) (omega (arith, hi))
        ],
      )

  HasOwner-kept : (m : Assoc ℕ Bytes) (hs : List ℕ) → All (HasOwner m) (kept hash m hs)
  unfolding kept
  HasOwner-kept m [] = tt
  HasOwner-kept m (h ∷ hs) = elim (Option-cases (lookup h m)) [
    | inl e ↦ rw (kept, e) (HasOwner-kept m hs)
    | inr (n, e) ↦ rw (kept, e) ((n, e), HasOwner-kept m hs)
  ]

  join-IsOwned :
      (node : Bytes) (r : Ring)
      → IsOwned hash r
      → IsOwned hash (record r { nodes = r.nodes ++ node ∷ [] })
  join-IsOwned node r o = record {
    known = λ h n e. ground (arith, member-snoc n node r.nodes, o.known h n e);
    placed = o.placed;
    owned = o.owned;
  }

  replicas-add_points :
      (k i : ℕ) (node : Bytes) (r : Ring) → (add_points hash k i node r).replicas ≡ r.replicas
  unfolding add_points
  replicas-add_points zero i node r = refl
  replicas-add_points (suc k) i node r = replicas-add_points k (i + 1) node _

  -- `Add` of one node that is new.
  pub add-IsOwned :
      (node : Bytes) (r : Ring)
      → member node r.nodes ≡ false
      → IsOwned hash r
      → IsOwned hash (add hash (node ∷ []) r)
        × ((add hash (node ∷ []) r).nodes ≡ r.nodes ++ node ∷ [])
  unfolding add add_nodes
  add-IsOwned node r fresh o =
      let grown : Ring =
        add_points hash r.replicas 0 node (record r { nodes = r.nodes ++ node ∷ [] }) in
      let g : IsOwned hash grown =
        add_points-IsOwned r.replicas 0 node (record r { nodes = r.nodes ++ node ∷ [] })
          (ground (arith, member-snoc node node r.nodes)) (omega arith) (join-IsOwned node r o) in
      rw (add, add_nodes, fresh)
        (
          record {
            known = g.known;
            placed = g.placed;
            owned = All-sort_points (HasOwner grown.owners) grown.ring g.owned;
          },
          nodes-add_points r.replicas 0 node (record r { nodes = r.nodes ++ node ∷ [] }),
        )

  -- `Remove` of a node of the ring.
  pub remove_node-IsOwned :
      (node : Bytes) (r : Ring)
      → member node r.nodes ≡ true
      → IsOwned hash r
      → IsOwned hash (remove_node hash node r)
        × ((remove_node hash node r).nodes ≡ remove node r.nodes)
  unfolding remove_node
  remove_node-IsOwned node r here o =
      rw (remove_node, here)
        (
          record {
            known = λ h n e.
                let (before, off) = lookup-drop_owners r.replicas 0 node r.owners h n e in
                let (i, lt, at) = o.placed h n before in
                elim (Bool-cases (same node n)) [
                  | inl gone ↦ absurd (
                      off i (omega arith) (omega (arith, lt))
                        (ap (λ x. hash (vnode_key x i)) (same→eq node n gone) ∙ at))
                  | inr stays ↦
                      ground (arith, member-remove n node r.nodes, stays, o.known h n before)
                ];
            placed = λ h n e. o.placed h n (lookup-drop_owners r.replicas 0 node r.owners h n e).0;
            owned = HasOwner-kept (drop_owners hash r.replicas 0 node r.owners) r.ring;
          },
          refl,
        )
