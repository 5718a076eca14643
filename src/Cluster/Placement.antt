-- ===== src/Cluster/Placement.antt =====
-- The registry and its ring agree on the nodes, so that a key's owner is a node of the registry.
use dist_cache.Base.{
  ℕ, ◌≡◌, refl, ap, ◌∙◌, subst, Bool, Option-cases, inl, inr, true, false, Option, none, some, List,
  [], ◌∷◌, Bytes, Bytes-discrete, bytes_eq, arith,
}
use dist_cache.Base.Assoc.{Assoc, lookup, insert, lookup-insert, lookup-erase}
use dist_cache.Base.Int64.{ℤ}
use dist_cache.Cluster.{
  NodeState, Node, Registry, add_locked, new_registry, add, remove, heartbeat, owner, node_view,
}
use dist_cache.Ring
use dist_cache.Ring.{Ring, member}
use dist_cache.Ring.Changes.{member-snoc, member-remove, add-IsOwned, remove_node-IsOwned}
use dist_cache.Ring.Owned.{IsOwned, new_ring-IsOwned, get-member}

abbrev is_known : Option NodeState → Bool
is_known none = false
is_known (some n) = true

pub data Call : Type 0 where
  added : Bytes → Bytes → ℤ → Call
  removed : Bytes → Call
  heard_of : Bytes → ℤ → Call

module _ (hash : Bytes → ℕ) where
  abbrev pub run : Call → Registry → Registry
  run (added id addr now) g = add hash id addr now g
  run (removed id) g = remove hash id g
  run (heard_of id now) g = heartbeat hash id now g

  abbrev pub run_all : List Call → Registry → Registry
  run_all [] g = g
  run_all (c ∷ cs) g = run_all cs (run c g)

  pub record IsPlaced (g : Registry) : Type 0 where
    pub points : IsOwned hash g.ring
    pub agree : (id : Bytes) → member id g.ring.nodes ≡ is_known (lookup id g.nodes)
    pub named : (id : Bytes) (n : NodeState) → lookup id g.nodes ≡ some n → n.id ≡ id

  named-insert :
      (id : Bytes) (n : NodeState) (m : Assoc Bytes NodeState)
      → n.id ≡ id
      → ((j : Bytes) (x : NodeState) → lookup j m ≡ some x → x.id ≡ j)
      → (j : Bytes) (x : NodeState) → lookup j (insert id n m) ≡ some x
      → x.id ≡ j
  named-insert id n m named all j x e = elim (Bytes-discrete id j) [
    | yes here ↦
        let same_state : n ≡ x = ground (arith, lookup-insert id j n m, here, e) in
        subst (λ (s : NodeState). s.id ≡ j) same_state (named ∙ here)
    | no there ↦ all j x (ground (arith, lookup-insert id j n m, there, e))
  ]

  add_locked-IsPlaced :
      (id addr : Bytes) (now : ℤ) (g : Registry)
      → IsPlaced g
      → IsPlaced (add_locked hash id addr now g)
  unfolding add_locked
  add_locked-IsPlaced id addr now g k = elim (Option-cases (lookup id g.nodes)) [
    | inr (n, e) ↦
        rw (add_locked, e)
          (record {
            points = k.points;
            agree = λ j. ground (arith, lookup-insert id j new g.nodes, k.agree j, e);
            named = named-insert id new g.nodes refl k.named;
          })
    | inl e ↦
        let (owned, joined) = add-IsOwned hash id g.ring (k.agree id ∙ ap is_known e) k.points in
        rw (add_locked, e)
          (record {
            points = owned;
            agree = λ j.
                ap (member j) joined
                ∙ ground (
                  arith,
                  member-snoc j id g.ring.nodes,
                  lookup-insert id j new g.nodes,
                  k.agree j,
                );
            named = named-insert id new g.nodes refl k.named;
          })
  ]
    where
      new : NodeState
      new = record { id = id; addr = addr; last_seen = now }

  remove-IsPlaced : (id : Bytes) (g : Registry) → IsPlaced g → IsPlaced (remove hash id g)
  unfolding remove
  remove-IsPlaced id g k = elim (Option-cases (lookup id g.nodes)) [
    | inl e ↦ rw (remove, e) k
    | inr (n, e) ↦
        let (owned, left) =
          remove_node-IsOwned hash id g.ring (k.agree id ∙ ap is_known e) k.points in
        rw (remove, e)
          (record {
            points = owned;
            agree = λ j.
                ap (member j) left
                ∙ ground
                    (arith, member-remove j id g.ring.nodes, lookup-erase id j g.nodes, k.agree j);
            named = λ j x f. k.named j x (ground (arith, lookup-erase id j g.nodes, f));
          })
  ]

  heartbeat-IsPlaced :
      (id : Bytes) (now : ℤ) (g : Registry) → IsPlaced g → IsPlaced (heartbeat hash id now g)
  unfolding heartbeat
  heartbeat-IsPlaced id now g k = elim (Option-cases (lookup id g.nodes)) [
    | inl e ↦ rw (heartbeat, e) k
    | inr (n, e) ↦
        rw (heartbeat, e)
          (record {
            points = k.points;
            agree = λ j.
                ground
                  (arith, lookup-insert id j (record n { last_seen = now }) g.nodes, k.agree j, e);
            named = named-insert id (record n { last_seen = now }) g.nodes (k.named id n e) k.named;
          })
  ]

  run_all-IsPlaced : (cs : List Call) (g : Registry) → IsPlaced g → IsPlaced (run_all cs g)
  run_all-IsPlaced [] g k = k
  run_all-IsPlaced (added id addr now ∷ cs) g k =
      run_all-IsPlaced cs (add hash id addr now g)
        (unfold add in add_locked-IsPlaced id addr now g k)
  run_all-IsPlaced (removed id ∷ cs) g k =
      run_all-IsPlaced cs (remove hash id g) (remove-IsPlaced id g k)
  run_all-IsPlaced (heard_of id now ∷ cs) g k =
      run_all-IsPlaced cs (heartbeat hash id now g) (heartbeat-IsPlaced id now g k)

  new_registry-IsPlaced :
      (id addr : Bytes) (rf : ℕ) (limit : ℤ) (vnodes : ℕ) (now : ℤ)
      → IsPlaced (new_registry hash id addr rf limit vnodes now)
  unfolding new_registry
  new_registry-IsPlaced id addr rf limit vnodes now = add_locked-IsPlaced id addr now _ (record {
    points = new_ring-IsOwned hash vnodes;
    agree = λ j. unfold Ring.new_ring lookup in refl;
    named = λ j x e. unfold lookup in absurd (ground (arith, e));
  })

  owner-view :
      (key id : Bytes) (now : ℤ) (g : Registry)
      → Ring.get hash key g.ring ≡ some id
      → owner hash key now g ≡ some (node_view id now g)
  unfolding owner
  owner-view key id now g f = rw (owner, f) refl

  owner-none :
      (key : Bytes) (now : ℤ) (g : Registry)
      → Ring.get hash key g.ring ≡ none
      → owner hash key now g ≡ none
  unfolding owner
  owner-none key now g f = rw (owner, f) refl

  view_of :
      (id : Bytes) (now : ℤ) (g : Registry) (n : NodeState)
      → lookup id g.nodes ≡ some n
      → ((node_view id now g).id ≡ n.id) × ((node_view id now g).addr ≡ n.addr)
  unfolding node_view
  view_of id now g n f = rw (node_view, f) (refl, refl)

  Registered : Node → Registry → Type 0
  Registered v g = (n : NodeState) × (lookup v.id g.nodes ≡ some n) × (v.addr ≡ n.addr)

  owner-Registered :
      (key : Bytes) (now : ℤ) (g : Registry) (v : Node)
      → IsPlaced g
      → owner hash key now g ≡ some v
      → Registered v g
  unfolding Registered
  owner-Registered key now g v k e = elim (Option-cases (Ring.get hash key g.ring)) [
    | inl f ↦ absurd (ground (arith, e, owner-none key now g f))
    | inr (id, f) ↦
        let same_view : node_view id now g ≡ v = ground (arith, e, owner-view key id now g f) in
        elim (Option-cases (lookup id g.nodes)) [
          | inl u ↦ absurd (ground (arith, get-member hash key id g.ring k.points f, k.agree id, u))
          | inr (n, u) ↦
              let (vi, va) = view_of id now g n u in
              subst
                (λ (x : Node). (m : NodeState) × (lookup x.id g.nodes ≡ some m) × (x.addr ≡ m.addr))
                same_view (n, ap (λ j. lookup j g.nodes) (vi ∙ k.named id n u) ∙ u, va)
        ]
  ]

  -- A new registry, of any number of points on the ring, after any calls of Add, Remove and
  -- Heartbeat: when Owner names a node for a key, the node is registered, and the address that it
  -- gives is the registered one. Points of several nodes may coincide.
  pub owner-registered :
      (id addr : Bytes) (rf : ℕ) (limit : ℤ) (vnodes : ℕ) (start : ℤ) (cs : List Call) (key : Bytes)
      (now : ℤ) (v : Node)
      → owner hash key now (run_all cs (new_registry hash id addr rf limit vnodes start)) ≡ some v
      → (n : NodeState) × (lookup v.id
            (run_all cs (new_registry hash id addr rf limit vnodes start)).nodes
          ≡ some n)
        × (v.addr ≡ n.addr)
  unfolding Registered
  owner-registered id addr rf limit vnodes start cs key now v e =
      owner-Registered key now _ v
        (run_all-IsPlaced cs _ (new_registry-IsPlaced id addr rf limit vnodes start)) e
