-- ===== src/Nodes/Authoring/Routes.antt =====
-- crates/jq-node-profile/src/authoring.rs, `validate_route` and `validate_path`.
use jq_ble.Prelude.{
  ◌≡◌, refl, ap, true, ◌↔◌, Option, none, some, [], ◌∷◌, ◌==◌, contains, arith, get, has, Result,
  ok, err, ◌>>◌, pair_eq, pair_order, sym, ◌∙◌, subst, beq_refl, Bool-cases, Option-cases, inl, inr,
}
use jq_ble.Core.Endpoints.{NodeId, id_eq, id_order, id_beq_iff, transport_kind_eq}
use jq_ble.Nodes.Topology.{
  transport_kind, ActiveRouteDelivery, local, direct, reachable, ActiveRoute, hop_node_ids,
  MeshTopologyBuildError, MeshEdge, MeshNode,
}
use jq_ble.Nodes.Authoring.{
  Checked, MeshNodes, MeshEdges, validate_route, validate_delivery, validate_path, check_hops,
  check_pairs, check_edge_of,
}
use jq_ble.Nodes.Authoring.Validity.{Delivers, IsValidRoute, Blames}

abbrev pub node_in : {N : Type 0} → MeshNodes N → NodeId → Option (MeshNode N)
node_in nodes k = get k nodes

abbrev pub edge_in : {X : Type 0} → MeshEdges X → NodeId × NodeId → Option (MeshEdge X)
edge_in edges k = get k edges

module _ {N X G : Type 0} (nodes : MeshNodes N) (edges : MeshEdges X) (r : ActiveRoute G) where
  abbrev hop : Option (MeshEdge X) → Result MeshTopologyBuildError (Unit {0})
  hop o = check_edge_of nodes edges r r.owner_node_id r.terminal_node_id o

  direct_path :
      has r.owner_node_id nodes ≡ true
      → has r.terminal_node_id nodes ≡ true
      → validate_path nodes edges r (r.owner_node_id ∷ r.terminal_node_id ∷ [])
        ≡ (hop (get (r.owner_node_id, r.terminal_node_id) edges) >> ok tt)
  unfolding validate_path check_hops check_pairs
  direct_path h k = ground (arith, h, k)

  validate_direct :
      (next_hop : NodeId)
      → has r.owner_node_id nodes ≡ true
      → has r.terminal_node_id nodes ≡ true
      → r.delivery ≡ direct next_hop
      → next_hop ≡ r.terminal_node_id
      → validate_delivery nodes edges r (direct next_hop)
        ≡ (hop (get (r.owner_node_id, r.terminal_node_id) edges) >> ok tt)
  unfolding validate_delivery hop_node_ids
  validate_direct next_hop h k same last =
      rw (last, same) (rw (beq_refl r.terminal_node_id) (direct_path h k))

  edge_sound :
      (o : Option (MeshEdge X))
      → (hop o >> ok tt) ≡ ok tt
      → (e : MeshEdge X) × (o ≡ some e) × (contains r.protocol_mix (transport_kind e) ≡ true)
  unfolding check_edge_of
  edge_sound none h = ground (arith, h)
  edge_sound (some e) h = (e, refl, ground (arith, h))

  delivery_sound :
      (d : ActiveRouteDelivery)
      → has r.owner_node_id nodes ≡ true
      → has r.terminal_node_id nodes ≡ true
      → r.delivery ≡ d
      → validate_delivery nodes edges r d ≡ ok tt
      → Delivers (node_in nodes) (edge_in edges) r d
  unfolding validate_delivery hop_node_ids
  delivery_sound local h k same passed = (
    ground (arith, passed, id_beq_iff r.owner_node_id r.terminal_node_id),
    ground (arith, passed),
  )
  delivery_sound (direct next_hop) h k same passed =
      let last : next_hop ≡ r.terminal_node_id =
        ground (arith, passed, id_beq_iff next_hop r.terminal_node_id) in
      (
        last,
        edge_sound (get (r.owner_node_id, r.terminal_node_id) edges)
            (sym (validate_direct next_hop h k same last) ∙ passed),
      )
  delivery_sound (reachable hops) h k same passed =
      ground (arith, passed, id_beq_iff r.owner_node_id r.terminal_node_id)

  delivery_complete :
      (d : ActiveRouteDelivery)
      → has r.owner_node_id nodes ≡ true
      → has r.terminal_node_id nodes ≡ true
      → r.delivery ≡ d
      → Delivers (node_in nodes) (edge_in edges) r d
      → validate_delivery nodes edges r d ≡ ok tt
  unfolding validate_delivery check_edge_of
  delivery_complete local h k same (meets, unmixed) =
      ground (arith, meets, unmixed, id_beq_iff r.owner_node_id r.terminal_node_id)
  delivery_complete (direct next_hop) h k same (last, (e, found, mixed)) =
      validate_direct next_hop h k same last ∙ rw found (rw mixed refl)
  delivery_complete (reachable hops) h k same (far, apart) =
      ground (arith, far, apart, id_beq_iff r.owner_node_id r.terminal_node_id)

  -- A route passes exactly if it is valid in the maps it is checked against.
  pub validate_route-IsValidRoute :
      (validate_route nodes edges r ≡ ok tt) ↔ IsValidRoute (node_in nodes) (edge_in edges) r
  unfolding validate_route
  validate_route-IsValidRoute = (
    λ passed.
        let h : has r.owner_node_id nodes ≡ true = ground (arith, passed) in
        let k : has r.terminal_node_id nodes ≡ true = ground (arith, passed) in
        (h, k, delivery_sound r.delivery h k refl (ground (arith, passed, h, k))),
    λ v. ground (arith, v.0, v.1, delivery_complete r.delivery v.0 v.1 refl v.2),
  )

  abbrev Faults : Checked → Type 0
  Faults (ok done) = Unit
  Faults (err reason) = Blames (node_in nodes) (edge_in edges) r reason

  edge-Faults :
      (o : Option (MeshEdge X))
      → get (r.owner_node_id, r.terminal_node_id) edges ≡ o
      → r.delivery ≡ direct r.terminal_node_id
      → Faults (hop o >> ok tt)
  unfolding check_edge_of
  edge-Faults none found same = ground (arith, found, same)
  edge-Faults (some e) found same = elim (Bool-cases (contains r.protocol_mix (transport_kind e))) [
    | inl mixed ↦ rw mixed tt
    | inr unmixed ↦ rw unmixed (refl, (e, found, refl, unmixed))
  ]

  delivery-Faults :
      (d : ActiveRouteDelivery)
      → has r.owner_node_id nodes ≡ true
      → has r.terminal_node_id nodes ≡ true
      → r.delivery ≡ d
      → Faults (validate_delivery nodes edges r d)
  unfolding validate_delivery hop_node_ids
  delivery-Faults local h k same =
      ground (arith, same, id_beq_iff r.owner_node_id r.terminal_node_id)
  delivery-Faults (direct next_hop) h k same = elim (Bool-cases (next_hop == r.terminal_node_id)) [
    | inl meets ↦
        let last = (id_beq_iff next_hop r.terminal_node_id).0 meets in
        subst Faults (sym (validate_direct next_hop h k same last)) (
          edge-Faults (get (r.owner_node_id, r.terminal_node_id) edges) refl
            (same ∙ ap direct last))
    | inr misses ↦
        rw misses (refl, same, refl, ground (arith, misses, id_beq_iff next_hop r.terminal_node_id))
  ]
  delivery-Faults (reachable hops) h k same =
      ground (arith, same, id_beq_iff r.owner_node_id r.terminal_node_id)

  pub validate_route-Faults : Faults (validate_route nodes edges r)
  unfolding validate_route
  validate_route-Faults = elim (Option-cases (node_in nodes r.owner_node_id)) [
    | inl missing ↦ rw missing (refl, refl, missing)
    | inr (n, owner) ↦ elim (Option-cases (node_in nodes r.terminal_node_id)) [
      | inl missing ↦ rw (owner, missing) (refl, refl, missing)
      | inr (m, terminal) ↦
          rw (owner, terminal) (delivery-Faults r.delivery (rw owner refl) (rw terminal refl) refl)
    ]
  ]

  -- The error of a route that does not pass names a defect the route has.
  pub validate_route-Blames :
      (reason : MeshTopologyBuildError)
      → validate_route nodes edges r ≡ err reason
      → Blames (node_in nodes) (edge_in edges) r reason
  validate_route-Blames reason failed = subst Faults failed validate_route-Faults
