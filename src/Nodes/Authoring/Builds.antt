-- ===== src/Nodes/Authoring/Builds.antt =====
-- crates/jq-node-profile/src/authoring.rs, `MeshTopologyBuilder::build`.
use jq_ble.Prelude.{
  ◌≡◌, refl, sym, ap, ◌∙◌, subst, ◌⊎◌, none, some, [], arith, All, All-map, ◌↔◌, Member, get, Map,
  Result, ok, err, bind_ok, Result-cases, declaration, HasDistinctKeys, collect_into, collect_sound,
  collect-Fails, pair_eq, pair_order, Option-cases, inl, inr,
}
use jq_ble.Core.Endpoints.{NodeId, RouteId, id_eq, id_order}
use jq_ble.Nodes.Topology.{
  MeshNode, MeshEdge, local_role, remote_role, ActiveRoute, MeshTopology, MeshTopologyBuildError,
  missing_local_node, duplicate_node, duplicate_edge, edge_references_unknown_node, duplicate_route,
  route_owner_missing, route_terminal_missing, route_hop_node_missing,
  local_delivery_targets_remote, local_delivery_has_protocol_mix, direct_delivery_next_hop_mismatch,
  reachable_delivery_collapses_to_direct, route_missing_edge, route_protocol_mix_missing_transport,
  reachable_delivery_requires_multi_hop,
}
use jq_ble.Nodes.Authoring.{
  no_check, MeshNodes, MeshEdges, key_of_node, key_of_edge, key_of_route, check_local,
  collect_nodes, check_edge, collect_edges, collect_routes, validate_route, MeshTopologyBuilder,
  assembled, build,
}
use jq_ble.Nodes.Authoring.Validity.{
  HasEndpoints, IsValidRoute, Blames, node_of, edge_of, IsValid, Represents, Defect,
}
use jq_ble.Nodes.Authoring.Routes.{
  node_in, edge_in, validate_route-IsValidRoute, validate_route-Blames,
}

module _ {N : Type 0} (id : NodeId) (m : MeshNodes N) where
  check_local-ok :
      (m' : MeshNodes N)
      → check_local id m ≡ ok m'
      → (m ≡ m') × ((n : MeshNode N) × (node_in m id ≡ some n) × (n.role ≡ local_role))
  unfolding check_local
  check_local-ok m' h = elim (Option-cases (node_in m id)) [
    | inl missing ↦ absurd (cc (rw missing at h))
    | inr (n, found) ↦ (ground (arith, h), (n, found, ground (arith, h, found)))
  ]

  check_local-err :
      (reason : MeshTopologyBuildError)
      → check_local id m ≡ err reason
      → (reason ≡ missing_local_node id)
        × ((n : MeshNode N) → node_in m id ≡ some n → n.role ≡ remote_role)
  unfolding check_local
  check_local-err reason h = (ground (arith, h), λ n found. ground (arith, h, found))

module _ {N X : Type 0} (nodes : MeshNodes N) (e : MeshEdge X) where
  pub check_edge-HasEndpoints : (check_edge nodes e ≡ ok tt) ↔ HasEndpoints (node_in nodes) e
  unfolding check_edge
  check_edge-HasEndpoints = ground arith

  check_edge-err :
      (reason : MeshTopologyBuildError)
      → check_edge nodes e ≡ err reason
      → (missing : NodeId) × (reason
          ≡ edge_references_unknown_node e.from_node_id e.to_node_id missing)
        × ((missing ≡ e.from_node_id) ⊎ (missing ≡ e.to_node_id))
        × (node_in nodes missing ≡ none)
  unfolding check_edge
  check_edge-err reason h = elim (Option-cases (node_in nodes e.from_node_id)) [
    | inl missing ↦ (e.from_node_id, ground (arith, h, missing), inl refl, missing)
    | inr (n, found) ↦ (e.to_node_id, ground (arith, h, found), inr refl, ground (arith, h, found))
  ]

module _ {N X G : Type 0} (b : MeshTopologyBuilder N X G) where
  pub nodes_sound :
      (m : MeshNodes N)
      → collect_nodes b.nodes b.local_node_id ≡ ok m
      → HasDistinctKeys key_of_node b.nodes
        × (node_in m ≡ node_of b)
        × ((n : MeshNode N) × (node_of b b.local_node_id ≡ some n) × (n.role ≡ local_role))
  unfolding collect_nodes
  nodes_sound m h =
      let (m', collected, last) =
        bind_ok (collect_into key_of_node no_check duplicate_node [] b.nodes)
          (check_local b.local_node_id) h in
      let (passed, distinct, contents) =
        collect_sound key_of_node no_check duplicate_node b.nodes m' collected in
      let (same, (n, found, role)) = check_local-ok b.local_node_id m' m last in
      (
        distinct,
        (λ i k. (ap (λ x. get k x) (sym same) ∙ contents k) i),
        (n, sym (contents b.local_node_id) ∙ found, role),
      )

  nodes_Defect :
      (reason : MeshTopologyBuildError)
      → collect_nodes b.nodes b.local_node_id ≡ err reason
      → Defect b reason
  unfolding collect_nodes
  nodes_Defect reason h =
      elim (Result-cases (collect_into key_of_node no_check duplicate_node [] b.nodes)) [
        | inl (other, failed) ↦
            elim (collect-Fails key_of_node no_check duplicate_node b.nodes other failed) [
              | inl (n, member, checked) ↦ absurd cc
              | inr (k, same, twice) ↦
                  let same' : reason ≡ duplicate_node k = cc (rw failed at h) in
                  subst (Defect b) (sym same') twice
            ]
        | inr (m, collected) ↦
            let contents =
              (collect_sound key_of_node no_check duplicate_node b.nodes m collected).2 in
            let (named, remote) = check_local-err b.local_node_id m reason (rw collected at h) in
            subst (Defect b) (sym named)
              (refl, λ n found. remote n (contents b.local_node_id ∙ found))
      ]

  pub edges_sound :
      (nodes : MeshNodes N) (m : MeshEdges X)
      → node_in nodes ≡ node_of b
      → collect_edges b.edges nodes ≡ ok m
      → HasDistinctKeys key_of_edge b.edges
        × All (HasEndpoints (node_of b)) b.edges
        × (edge_in m ≡ edge_of b)
  unfolding collect_edges
  edges_sound nodes m agree h =
      let (passed, distinct, contents) =
        collect_sound key_of_edge (check_edge nodes) (λ k. duplicate_edge k.0 k.1) b.edges m h in
      (
        distinct,
        subst (λ node. All (HasEndpoints node) b.edges) agree
            (All-map (λ e. (check_edge-HasEndpoints nodes e).0) b.edges passed),
        λ i k. contents k i,
      )

  edges_Defect :
      (nodes : MeshNodes N) (reason : MeshTopologyBuildError)
      → node_in nodes ≡ node_of b
      → collect_edges b.edges nodes ≡ err reason
      → Defect b reason
  unfolding collect_edges
  edges_Defect nodes reason agree h =
      elim (collect-Fails key_of_edge (check_edge nodes) (λ k. duplicate_edge k.0 k.1) b.edges
        reason h) [
          | inl (e, member, failed) ↦
              let (missing, named, endpoint, absent) = check_edge-err nodes e reason failed in
              subst (Defect b) (sym named)
                ((e, member, refl, refl), endpoint, ap (λ node. node missing) (sym agree) ∙ absent)
          | inr (k, named, twice) ↦ subst (Defect b) (sym named) twice
        ]

  blamed-Defect :
      (reason : MeshTopologyBuildError) (r : ActiveRoute G)
      → Member r b.active_routes
      → Blames (node_of b) (edge_of b) r reason
      → Defect b reason
  blamed-Defect (missing_local_node id) r member blames = absurd blames
  blamed-Defect (duplicate_node id) r member blames = absurd blames
  blamed-Defect (duplicate_edge from to) r member blames = absurd blames
  blamed-Defect (edge_references_unknown_node from to missing) r member blames = absurd blames
  blamed-Defect (duplicate_route id) r member blames = absurd blames
  blamed-Defect (route_owner_missing id owner) r member blames = (r, member, blames)
  blamed-Defect (route_terminal_missing id terminal) r member blames = (r, member, blames)
  blamed-Defect (route_hop_node_missing id hop) r member blames = (r, member, blames)
  blamed-Defect (local_delivery_targets_remote id owner terminal) r member blames =
      (r, member, blames)
  blamed-Defect (local_delivery_has_protocol_mix id) r member blames = (r, member, blames)
  blamed-Defect (direct_delivery_next_hop_mismatch id hop terminal) r member blames =
      (r, member, blames)
  blamed-Defect (reachable_delivery_collapses_to_direct id) r member blames = (r, member, blames)
  blamed-Defect (route_missing_edge id from to) r member blames = (r, member, blames)
  blamed-Defect (route_protocol_mix_missing_transport id kind) r member blames = (r, member, blames)
  blamed-Defect (reachable_delivery_requires_multi_hop id) r member blames = (r, member, blames)

  module _ (nodes : MeshNodes N) (edges : MeshEdges X) (agree : node_in nodes ≡ node_of b)
      (same : edge_in edges ≡ edge_of b) where
    routes_sound :
        (m : Map RouteId (ActiveRoute G))
        → collect_routes nodes edges b.active_routes ≡ ok m
        → HasDistinctKeys key_of_route b.active_routes
          × All (IsValidRoute (node_of b) (edge_of b)) b.active_routes
          × ((k : RouteId) → get k m ≡ declaration key_of_route b.active_routes k)
    unfolding collect_routes
    routes_sound m h =
        let (passed, distinct, contents) =
          collect_sound key_of_route (validate_route nodes edges) duplicate_route b.active_routes m
            h in
        let valid =
          All-map (λ r. (validate_route-IsValidRoute nodes edges r).0) b.active_routes passed in
        (
          distinct,
          subst (λ edge. All (IsValidRoute (node_of b) edge) b.active_routes) same
              (subst (λ node. All (IsValidRoute node (edge_in edges)) b.active_routes) agree valid),
          contents,
        )

    routes_Defect :
        (reason : MeshTopologyBuildError)
        → collect_routes nodes edges b.active_routes ≡ err reason
        → Defect b reason
    unfolding collect_routes
    routes_Defect reason h =
        elim (collect-Fails key_of_route (validate_route nodes edges) duplicate_route
          b.active_routes reason h) [
            | inl (r, member, failed) ↦
                let blames = validate_route-Blames nodes edges r reason failed in
                blamed-Defect reason r member (
                  subst (λ edge. Blames (node_of b) edge r reason) same
                    (subst (λ node. Blames node (edge_in edges) r reason) agree blames))
            | inr (k, named, twice) ↦ subst (Defect b) (sym named) twice
          ]

  abbrev pub Outcome : Result MeshTopologyBuildError (MeshTopology N X G) → Type 0
  Outcome (ok t) = IsValid b × Represents b t
  Outcome (err reason) = Defect b reason

  built-Outcome :
      (nodes : MeshNodes N) (edges : MeshEdges X) (routes : Map RouteId (ActiveRoute G))
      → collect_nodes b.nodes b.local_node_id ≡ ok nodes
      → collect_edges b.edges nodes ≡ ok edges
      → collect_routes nodes edges b.active_routes ≡ ok routes
      → Outcome (ok (assembled b nodes edges routes))
  built-Outcome nodes edges routes h k l =
      let (distinct_nodes, agree, local) = nodes_sound nodes h in
      let (distinct_edges, endpoints, same) = edges_sound nodes edges agree k in
      let (distinct_routes, valid, contents) = routes_sound nodes edges agree same routes l in
      (
        record {
          distinct_nodes = distinct_nodes;
          local_node = local;
          distinct_edges = distinct_edges;
          endpoints = endpoints;
          distinct_routes = distinct_routes;
          routes = valid;
        },
        record {
          local_node_id = refl;
          observed_at_tick = refl;
          nodes = λ k. ap (λ node. node k) agree;
          edges = λ i j. ap (λ edge. edge (i, j)) same;
          active_routes = contents;
        },
      )

  pub build-Outcome : Outcome (build b)
  unfolding build
  build-Outcome = elim (Result-cases (collect_nodes b.nodes b.local_node_id)) [
    | inl (reason, failed) ↦ rw failed (nodes_Defect reason failed)
    | inr (nodes, h) ↦ rw h (elim (Result-cases (collect_edges b.edges nodes)) [
      | inl (reason, failed) ↦ rw failed (edges_Defect nodes reason (nodes_sound nodes h).1 failed)
      | inr (edges, k) ↦ rw k (elim (Result-cases (collect_routes nodes edges b.active_routes)) [
        | inl (reason, failed) ↦
            let agree = (nodes_sound nodes h).1 in
            rw failed
              (routes_Defect nodes edges agree (edges_sound nodes edges agree k).2 reason failed)
        | inr (routes, l) ↦ rw l (built-Outcome nodes edges routes h k l)
      ])
    ])
  ]
