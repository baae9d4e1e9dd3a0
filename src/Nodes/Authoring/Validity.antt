-- ===== src/Nodes/Authoring/Validity.antt =====
-- What the builders of crates/jq-node-profile/src/authoring.rs ask of a topology, said of the
-- declarations alone.
use jq_ble.Prelude.{
  ℕ, ◌<◌, ◌≡◌, ◌≢◌, true, false, ◌⊎◌, Option, none, some, [], All, is_some, contains, declaration,
  HasDistinctKeys, Twice, Member, pair_eq,
}
use jq_ble.Core.Endpoints.{NodeId, RouteId, id_eq, transport_kind_eq}
use jq_ble.Nodes.Topology.{
  MeshNode, local_role, remote_role, MeshEdge, MeshTopology, topology_node, topology_edge,
  topology_route, transport_kind, ActiveRouteDelivery, local, direct, reachable, ActiveRoute,
  MeshTopologyBuildError, missing_local_node, duplicate_node, duplicate_edge,
  edge_references_unknown_node, duplicate_route, route_owner_missing, route_terminal_missing,
  local_delivery_targets_remote, local_delivery_has_protocol_mix, direct_delivery_next_hop_mismatch,
  reachable_delivery_collapses_to_direct, route_missing_edge, route_protocol_mix_missing_transport,
  reachable_delivery_requires_multi_hop,
}
use jq_ble.Nodes.Authoring.{key_of_node, key_of_edge, key_of_route, MeshTopologyBuilder}

-- `node` and `edge` are the declarations, by key.
module _ {N X : Type 0} (node : NodeId → Option (MeshNode N)) (e : MeshEdge X) where
  abbrev pub HasEndpoints : Type 0
  HasEndpoints = (is_some (node e.from_node_id) ≡ true) × (is_some (node e.to_node_id) ≡ true)

module _ {N X G : Type 0} (node : NodeId → Option (MeshNode N))
    (edge : NodeId × NodeId → Option (MeshEdge X)) (r : ActiveRoute G) where
  abbrev pub Delivers : ActiveRouteDelivery → Type 0
  Delivers local = (r.owner_node_id ≡ r.terminal_node_id) × (r.protocol_mix ≡ [])
  Delivers (direct next_hop) =
      (next_hop ≡ r.terminal_node_id)
      × ((e : MeshEdge X) × (edge (r.owner_node_id, r.terminal_node_id) ≡ some e)
          × (contains r.protocol_mix (transport_kind e) ≡ true))
  Delivers (reachable hops) = (1 < hops) × (r.owner_node_id ≢ r.terminal_node_id)

  abbrev pub IsValidRoute : Type 0
  IsValidRoute =
      (is_some (node r.owner_node_id) ≡ true)
      × (is_some (node r.terminal_node_id) ≡ true)
      × Delivers r.delivery

  -- The defect of `r` that an error names.
  abbrev pub Blames : MeshTopologyBuildError → Type 0
  Blames (route_owner_missing id owner) =
      (id ≡ r.route_id) × (owner ≡ r.owner_node_id) × (node owner ≡ none)
  Blames (route_terminal_missing id terminal) =
      (id ≡ r.route_id) × (terminal ≡ r.terminal_node_id) × (node terminal ≡ none)
  Blames (local_delivery_targets_remote id owner terminal) =
      (id ≡ r.route_id)
      × (r.delivery ≡ local)
      × (owner ≡ r.owner_node_id)
      × (terminal ≡ r.terminal_node_id)
      × (owner ≢ terminal)
  Blames (local_delivery_has_protocol_mix id) =
      (id ≡ r.route_id) × (r.delivery ≡ local) × (r.protocol_mix ≢ [])
  Blames (direct_delivery_next_hop_mismatch id next_hop terminal) =
      (id ≡ r.route_id)
      × (r.delivery ≡ direct next_hop)
      × (terminal ≡ r.terminal_node_id)
      × (next_hop ≢ terminal)
  Blames (route_missing_edge id from to) =
      (id ≡ r.route_id)
      × (r.delivery ≡ direct to)
      × (from ≡ r.owner_node_id)
      × (edge (from, to) ≡ none)
  Blames (route_protocol_mix_missing_transport id kind) =
      (id ≡ r.route_id)
      × ((e : MeshEdge X) × (edge (r.owner_node_id, r.terminal_node_id) ≡ some e)
          × (kind ≡ transport_kind e)
          × (contains r.protocol_mix kind ≡ false))
  Blames (reachable_delivery_requires_multi_hop id) =
      (id ≡ r.route_id) × ((hops : ℕ) × (r.delivery ≡ reachable hops) × (hops < 2))
  Blames (reachable_delivery_collapses_to_direct id) =
      (id ≡ r.route_id)
      × ((hops : ℕ) × (r.delivery ≡ reachable hops) × (1 < hops))
      × (r.owner_node_id ≡ r.terminal_node_id)
  Blames _ = ⊥

module _ {N X G : Type 0} (b : MeshTopologyBuilder N X G) where
  abbrev pub node_of : NodeId → Option (MeshNode N)
  node_of = declaration key_of_node b.nodes

  abbrev pub edge_of : NodeId × NodeId → Option (MeshEdge X)
  edge_of = declaration key_of_edge b.edges

  pub record IsValid : Type 0 where
    pub distinct_nodes : HasDistinctKeys key_of_node b.nodes
    pub local_node : (n : MeshNode N) × (node_of b.local_node_id ≡ some n) × (n.role ≡ local_role)
    pub distinct_edges : HasDistinctKeys key_of_edge b.edges
    pub endpoints : All (HasEndpoints node_of) b.edges
    pub distinct_routes : HasDistinctKeys key_of_route b.active_routes
    pub routes : All (IsValidRoute node_of edge_of) b.active_routes

  -- What the topology of these declarations holds.
  pub record Represents (t : MeshTopology N X G) : Type 0 where
    pub local_node_id : t.local_node_id ≡ b.local_node_id
    pub observed_at_tick : t.observed_at_tick ≡ b.observed_at_tick
    pub nodes : (k : NodeId) → topology_node t k ≡ node_of k
    pub edges : (i j : NodeId) → topology_edge t i j ≡ edge_of (i, j)
    pub active_routes :
        (k : RouteId) → topology_route t k ≡ declaration key_of_route b.active_routes k

  -- The defect of the declarations that an error names.
  abbrev pub Defect : MeshTopologyBuildError → Type 0
  Defect (missing_local_node id) =
      (id ≡ b.local_node_id) × ((n : MeshNode N) → node_of id ≡ some n → n.role ≡ remote_role)
  Defect (duplicate_node id) = Twice key_of_node b.nodes id
  Defect (duplicate_edge from to) = Twice key_of_edge b.edges (from, to)
  Defect (edge_references_unknown_node from to missing) =
      ((e : MeshEdge X) × Member e b.edges × (from ≡ e.from_node_id) × (to ≡ e.to_node_id))
      × ((missing ≡ from) ⊎ (missing ≡ to))
      × (node_of missing ≡ none)
  Defect (duplicate_route id) = Twice key_of_route b.active_routes id
  Defect reason = (r : ActiveRoute G) × Member r b.active_routes × Blames node_of edge_of r reason
