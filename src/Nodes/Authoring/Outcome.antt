-- ===== src/Nodes/Authoring/Outcome.antt =====
-- crates/jq-node-profile/src/authoring.rs: what `build` returns for the declarations it is given.
use jq_ble.Prelude.{
  ◌≡◌, refl, sym, ◌∙◌, subst, some, List, [], ◌∷◌, All, All-map, ok, err, collect_complete, pair_eq,
  pair_order, Map, collect_sound,
}
use jq_ble.Core.Endpoints.{RouteId, id_eq, id_order}
use jq_ble.Nodes.Topology.{
  MeshNode, MeshTopology, ActiveRoute, MeshTopologyBuildError, duplicate_node, duplicate_edge,
  duplicate_route,
}
use jq_ble.Nodes.Authoring.{
  no_check, MeshNodes, MeshEdges, key_of_node, key_of_edge, key_of_route, check_local,
  collect_nodes, check_edge, collect_edges, collect_routes, validate_route, MeshTopologyBuilder,
  assembled, build,
}
use jq_ble.Nodes.Authoring.Validity.{
  HasEndpoints, IsValidRoute, node_of, edge_of, IsValid, Represents, Defect,
}
use jq_ble.Nodes.Authoring.Routes.{node_in, edge_in, validate_route-IsValidRoute}
use jq_ble.Nodes.Authoring.Builds.{
  nodes_sound, edges_sound, check_edge-HasEndpoints, Outcome, build-Outcome,
}

unchecked : {N : Type 0} (nodes : List (MeshNode N)) → All (λ n. no_check n ≡ ok tt) nodes
unchecked [] = tt
unchecked (n ∷ nodes) = (refl, unchecked nodes)

module _ {N X G : Type 0} (b : MeshTopologyBuilder N X G) where
  nodes_complete : IsValid b → (m : MeshNodes N) × (collect_nodes b.nodes b.local_node_id ≡ ok m)
  unfolding collect_nodes check_local
  nodes_complete v =
      let (m, collected) =
        collect_complete key_of_node no_check duplicate_node b.nodes (unchecked b.nodes)
          v.distinct_nodes in
      let contents = (collect_sound key_of_node no_check duplicate_node b.nodes m collected).2 in
      let (n, found, role) = v.local_node in
      let here : node_in m b.local_node_id ≡ some n = contents b.local_node_id ∙ found in
      (m, rw collected (rw here (rw role refl)))

  edges_complete :
      (nodes : MeshNodes N)
      → IsValid b
      → node_in nodes ≡ node_of b
      → (m : MeshEdges X) × (collect_edges b.edges nodes ≡ ok m)
  unfolding collect_edges
  edges_complete nodes v agree =
      let endpoints = subst (λ node. All (HasEndpoints node) b.edges) (sym agree) v.endpoints in
      collect_complete key_of_edge (check_edge nodes) (λ k. duplicate_edge k.0 k.1) b.edges
        (All-map (λ e. (check_edge-HasEndpoints nodes e).1) b.edges endpoints) v.distinct_edges

  routes_complete :
      (nodes : MeshNodes N) (edges : MeshEdges X)
      → IsValid b
      → node_in nodes ≡ node_of b
      → edge_in edges ≡ edge_of b
      → (m : Map RouteId (ActiveRoute G)) × (collect_routes nodes edges b.active_routes ≡ ok m)
  unfolding collect_routes
  routes_complete nodes edges v agree same =
      let valid =
        subst (λ edge. All (IsValidRoute (node_in nodes) edge) b.active_routes) (sym same)
          (subst (λ node. All (IsValidRoute node (edge_of b)) b.active_routes) (sym agree)
            v.routes) in
      collect_complete key_of_route (validate_route nodes edges) duplicate_route b.active_routes
        (All-map (λ r. (validate_route-IsValidRoute nodes edges r).1) b.active_routes valid)
        v.distinct_routes

  -- Valid declarations are built: `build` refuses none of them.
  pub build_complete : IsValid b → (t : MeshTopology N X G) × (build b ≡ ok t)
  unfolding build
  build_complete v =
      let (nodes, h) = nodes_complete v in
      let agree = (nodes_sound b nodes h).1 in
      let (edges, k) = edges_complete nodes v agree in
      let same = (edges_sound b nodes edges agree k).2 in
      let (routes, l) = routes_complete nodes edges v agree same in
      (assembled b nodes edges routes, rw h (rw k (rw l refl)))

  -- A topology that `build` returns comes from valid declarations, and its maps hold exactly them, with
  -- the local node and the tick of the builder.
  pub build_sound : (t : MeshTopology N X G) → build b ≡ ok t → IsValid b × Represents b t
  build_sound t h = subst (Outcome b) h (build-Outcome b)

  -- An error of `build` names a defect that the declarations have: a missing or remote local node, a
  -- key declared twice, an edge with an undeclared endpoint, or the defect of one of the routes.
  pub build-Defect : (reason : MeshTopologyBuildError) → build b ≡ err reason → Defect b reason
  build-Defect reason h = subst (Outcome b) h (build-Outcome b)
