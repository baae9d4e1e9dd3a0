-- ===== src/Client/Snapshot/Routes.antt =====
-- crates/jq-client/src/projector.rs, `project_observed_route`: the routes of a projected mesh.
use jq_ble.Prelude.{
  ℕ, ◌<◌, ◌≡◌, ◌≢◌, refl, sym, ap, ◌∙◌, subst, true, false, ◌⊎◌, inl, inr, Option, some, [], ◌∷◌,
  ◌==◌, leb, is_some, contains, Map, get, get-insert, arith, Bool-cases, Option-cases, pair_eq,
  pair_order, beq_refl,
}
use jq_ble.Core.Endpoints.{NodeId, RouteId, id_eq, id_order, id_beq_iff, transport_kind_eq}
use jq_ble.Core.Routes.{DestinationId}
use jq_ble.Nodes.Topology.{
  MeshEdge, transport_kind, ActiveRouteDelivery, local, direct, reachable, ActiveRoute,
  MeshTopology, topology_node, topology_edge, topology_route,
}
use jq_ble.Nodes.Authoring.Validity.{IsValidRoute}
use jq_ble.Client.Snapshot.{
  ObservedRoute, TopologySnapshot, EdgeObservations, is_usable, maximum, derive_route_delivery,
  mix_along, path_transport_mix, value_or, route_with, route_to, project_observed_route,
  insert_route, projected_routes, mesh_snapshot_from,
}

abbrev edge_at : {N X G : Type 0} → MeshTopology N X G → NodeId × NodeId → Option (MeshEdge X)
edge_at t k = get k t.edges

module _ {N X G : Type 0} (t : MeshTopology N X G) where
  -- A route that `validate_route` passes, or one to another node that is one hop away at most by its
  -- hint and has no usable edge to it.
  abbrev pub IsProjected : ActiveRoute G → Type 0
  IsProjected r =
      IsValidRoute (topology_node t) (edge_at t) r
      ⊎ ((r.delivery ≡ reachable 1)
          × (r.owner_node_id ≢ r.terminal_node_id)
          × (is_usable (topology_edge t r.owner_node_id r.terminal_node_id) ≡ false))

  -- The mix of a path of one edge.
  one_hop :
      (owner terminal : NodeId) (edge : MeshEdge X)
      → topology_edge t owner terminal ≡ some edge
      → path_transport_mix t (direct terminal) owner terminal ≡ some (transport_kind edge ∷ [])
  unfolding path_transport_mix mix_along contains
  one_hop owner terminal edge found = rw (found, mix_along) refl

  -- The three results of `derive_route_delivery`.
  derive-cases :
      (owner terminal : NodeId) (hint : ℕ)
      → ((owner ≡ terminal) × (derive_route_delivery t owner terminal hint ≡ local))
        ⊎ ((edge : MeshEdge X) × (topology_edge t owner terminal ≡ some edge)
            × (derive_route_delivery t owner terminal hint ≡ direct terminal))
        ⊎ ((owner ≢ terminal)
            × (derive_route_delivery t owner terminal hint ≡ reachable (maximum hint 1))
            × ((1 < hint) ⊎ (is_usable (topology_edge t owner terminal) ≡ false)))
  unfolding derive_route_delivery
  derive-cases owner terminal hint = elim (Bool-cases (owner == terminal)) [
    | inl here ↦ inl ((id_beq_iff owner terminal).0 here, rw here refl)
    | inr away ↦
        let apart : owner ≢ terminal =
          λ same. ground (arith, away, same, id_beq_iff owner terminal) in
        elim (Option-cases (topology_edge t owner terminal)) [
          | inl missing ↦ inr (inr (apart, rw (away, missing) refl, inr (rw missing refl)))
          | inr (edge, found) ↦ elim (Bool-cases (is_usable (some edge))) [
            | inl usable ↦ elim (Bool-cases (leb hint 1)) [
              | inl near ↦ inr (inl (edge, found, rw (away, found, usable, near) refl))
              | inr far ↦
                  inr (inr (apart, rw (away, found, usable, far) refl, inl (ground (arith, far))))
            ]
            | inr broken ↦
                inr (inr (apart, rw (away, found, broken) refl, inr (rw (found, broken) refl)))
          ]
        ]
  ]

  module _ (route : ObservedRoute G) (terminal : NodeId) where
    abbrev With : ActiveRouteDelivery → Type 0
    With delivery = IsProjected (route_with t route terminal delivery)

    direct-IsProjected :
        (edge : MeshEdge X)
        → topology_edge t route.owner_node_id terminal ≡ some edge
        → is_some (topology_node t route.owner_node_id) ≡ true
        → is_some (topology_node t terminal) ≡ true
        → With (direct terminal)
    unfolding contains route_with
    direct-IsProjected edge found owned present = inl (
      owned,
      present,
      (
        refl,
        (
          edge,
          found,
          rw (one_hop route.owner_node_id terminal edge found)
              (rw (beq_refl (transport_kind edge)) refl),
        ),
      ),
    )

    route_to-IsProjected :
        is_some (topology_node t terminal) ≡ true
        → is_some (topology_node t route.owner_node_id) ≡ true
        → IsProjected (route_to t route terminal)
    unfolding route_with route_to derive_route_delivery
    route_to-IsProjected present owned =
        let hint = value_or route.hop_count_hint 1 in
        elim (derive-cases route.owner_node_id terminal hint) [
          | inl (same, d) ↦ subst With (sym d) (inl (owned, present, (same, refl)))
          | inr (inl (edge, found, d)) ↦
              subst With (sym d) (direct-IsProjected edge found owned present)
          | inr (inr (apart, d, inl far)) ↦
              subst With (sym d) (inl (owned, present, (ground (arith, far), apart)))
          | inr (inr (apart, d, inr unusable)) ↦ elim (Bool-cases (leb hint 1)) [
            | inl near ↦
                let one : maximum hint 1 ≡ 1 = ground (arith, near) in
                subst With (sym d) (inr (ap reachable one, apart, unusable))
            | inr far ↦ subst With (sym d) (inl (owned, present, (ground (arith, far), apart)))
          ]
        ]

  project_to :
      (route : ObservedRoute G) (d : DestinationId) (r : ActiveRoute G)
      → route.destination ≡ d
      → project_observed_route t route ≡ some r
      → IsProjected r
  unfolding project_observed_route
  project_to route (DestinationId.other tag) r destination h = absurd (cc (rw destination at h))
  project_to route (DestinationId.to_node terminal) r destination h =
      elim (Bool-cases (is_some (topology_node t terminal))) [
        | inr missing ↦ absurd (cc (rw (destination, missing) at h))
        | inl present ↦ elim (Bool-cases (is_some (topology_node t route.owner_node_id))) [
          | inr missing ↦ absurd (cc (rw (destination, present, missing) at h))
          | inl owned ↦
              let same : route_to t route terminal ≡ r =
                cc (rw (destination, present, owned) at h) in
              subst IsProjected same (route_to-IsProjected route terminal present owned)
        ]
      ]

  -- The routes so far, by their own identifiers.
  abbrev Collects : Map RouteId (ActiveRoute G) → Type 0
  Collects m =
      (k : RouteId) (r : ActiveRoute G) → get k m ≡ some r → IsProjected r × (r.route_id ≡ k)

  insert_route-Collects :
      (m : Map RouteId (ActiveRoute G)) (route : ObservedRoute G)
      → Collects m
      → Collects (insert_route m (project_observed_route t route))
  insert_route-Collects m route c = elim (Option-cases (project_observed_route t route)) [
    | inl skipped ↦ rw skipped c
    | inr (r, projected) ↦ rw projected (λ k s found. elim (Bool-cases (r.route_id == k)) [
      | inl here ↦
          let same : r ≡ s = cc (rw here at (sym (get-insert r.route_id k r m) ∙ found)) in
          (
            subst IsProjected same (project_to route route.destination r refl projected),
            ap (λ (a : ActiveRoute G). a.route_id) (sym same) ∙ (id_beq_iff r.route_id k).0 here,
          )
      | inr elsewhere ↦ c k s (rw elsewhere at (sym (get-insert r.route_id k r m) ∙ found))
    ])
  ]

  projected_routes-Collects :
      (routes : Map RouteId (ObservedRoute G)) (m : Map RouteId (ActiveRoute G))
      → Collects m
      → Collects (projected_routes t m routes)
  unfolding projected_routes
  projected_routes-Collects [] m c = c
  projected_routes-Collects ((k, route) ∷ routes) m c =
      projected_routes-Collects routes (insert_route m (project_observed_route t route))
        (insert_route-Collects m route c)

module _ {N X G : Type 0} (observed : EdgeObservations X) (generic : TopologySnapshot N X G) where
  -- A projected mesh lists each route under its own identifier, and each is one that the node
  -- profile's `validate_route` passes in that mesh, or a route of hint one to another node that has no
  -- usable edge.
  pub mesh_snapshot_from-IsProjected :
      (k : RouteId) (r : ActiveRoute G)
      → topology_route (mesh_snapshot_from observed generic) k ≡ some r
      → IsProjected (mesh_snapshot_from observed generic) r × (r.route_id ≡ k)
  unfolding mesh_snapshot_from get
  mesh_snapshot_from-IsProjected k r found =
      projected_routes-Collects _ generic.active_routes [] (λ k r e. absurd cc) k r found
