-- ===== src/Client/Snapshot.antt =====
-- crates/jq-client/src/projector.rs, the functions: the mesh that a snapshot of
-- `jacquard_host_support` is projected to.
pub mod Routes
use jq_ble.Prelude.{
  ℕ, Bool, false, not, ◌&&◌, Option, none, some, List, [], ◌∷◌, ◌++◌, ◌==◌, leb, ltb, is_some,
  contains, Map, get, insert, if◌then◌else◌, pair_eq, pair_order,
}
use jq_ble.Core.Endpoints.{NodeId, RouteId, TransportKind, id_eq, id_order, transport_kind_eq}
use jq_ble.Core.Events.{
  Link, FactSourceClass, RoutingEvidenceClass, OriginAuthenticationClass, Observation,
}
use jq_ble.Core.Routes.{DestinationId, RouteShapeVisibility, TransportDeliveryMode}
use jq_ble.Nodes.Topology.{
  local_role, remote_role, MeshNode, MeshEdge, transport_kind, ActiveRouteDelivery, local, direct,
  reachable, ActiveRoute, MeshTopology, topology_node, topology_edge,
}
use jq_ble.Client.Multicast.{is_faulted}

pub data ObservedRouteShape : Type 0 where
  explicit_path corridor_envelope next_hop_only opaque : ObservedRouteShape

pub record ObservedLink (X : Type 0) : Type 0 where
  pub link : Link X
  pub observed_at_tick : ℕ

-- `hop_count_hint` is `none` where nothing is known, when `value_or` gives its default.
pub record ObservedRoute (G : Type 0) : Type 0 where
  pub route_id : RouteId
  pub destination : DestinationId
  pub owner_node_id : NodeId
  pub engine_id : G
  pub route_shape : ObservedRouteShape
  pub hop_count_hint : Option ℕ
  pub protocol_mix : List TransportKind
  pub delivery_mode : TransportDeliveryMode
  pub last_validated_at_tick : ℕ
  pub lifecycle_updated_at_tick : ℕ

-- An observed node carries the controller, profile and state that make a node, `N`.
pub record TopologySnapshot (N X G : Type 0) : Type 0 where
  pub local_node_id : NodeId
  pub observed_at_tick : ℕ
  pub nodes : Map NodeId N
  pub links : Map (NodeId × NodeId) (ObservedLink X)
  pub active_routes : Map RouteId (ObservedRoute G)

abbrev pub EdgeObservations : Type 0 → Type 0
EdgeObservations X = Map (NodeId × NodeId) (Observation (Link X))

module _ {N : Type 0} where
  abbrev pub mesh_node_from_observed : NodeId → NodeId → N → MeshNode N
  mesh_node_from_observed node_id local_node_id node = record {
    node_id = node_id;
    role = if node_id == local_node_id then local_role else remote_role;
    node = node;
  }

  abbrev pub mesh_nodes : NodeId → Map NodeId N → Map NodeId (MeshNode N)
  mesh_nodes local_node_id [] = []
  mesh_nodes local_node_id ((k, node) ∷ rest) =
      (k, mesh_node_from_observed k local_node_id node) ∷ mesh_nodes local_node_id rest

module _ {X : Type 0} where
  abbrev pub observation_or : Option (Observation (Link X)) → ObservedLink X → Observation (Link X)
  observation_or (some observation) link = observation
  observation_or none link = record {
    value = link.link;
    source_class = FactSourceClass.local;
    evidence_class = RoutingEvidenceClass.direct_observation;
    origin_authentication = OriginAuthenticationClass.unauthenticated;
    observed_at_tick = link.observed_at_tick;
  }

  abbrev pub edge_observation_from :
      EdgeObservations X → NodeId × NodeId → ObservedLink X → Observation (Link X)
  edge_observation_from edge_observations key link = observation_or (get key edge_observations) link

  abbrev pub mesh_edges :
      EdgeObservations X
      → Map (NodeId × NodeId) (ObservedLink X)
      → Map (NodeId × NodeId) (MeshEdge X)
  mesh_edges observed [] = []
  mesh_edges observed ((k, link) ∷ rest) =
      let edge : MeshEdge X = record {
        from_node_id = k.0;
        to_node_id = k.1;
        observation = edge_observation_from observed k link;
      } in
      (k, edge) ∷ mesh_edges observed rest

abbrev pub route_shape_visibility : ObservedRouteShape → RouteShapeVisibility
route_shape_visibility ObservedRouteShape.explicit_path = RouteShapeVisibility.explicit_path
route_shape_visibility ObservedRouteShape.corridor_envelope = RouteShapeVisibility.corridor_envelope
route_shape_visibility ObservedRouteShape.next_hop_only = RouteShapeVisibility.next_hop_only
route_shape_visibility ObservedRouteShape.opaque = RouteShapeVisibility.opaque

abbrev pub value_or : Option ℕ → ℕ → ℕ
value_or none default = default
value_or (some value) default = value

abbrev pub mix_or : Option (List TransportKind) → List TransportKind → List TransportKind
mix_or none mix = mix
mix_or (some mix) other = mix

abbrev pub is_usable : {X : Type 0} → Option (MeshEdge X) → Bool
is_usable none = false
is_usable (some edge) = not (is_faulted edge.observation.value.runtime_state)

abbrev pub maximum : ℕ → ℕ → ℕ
maximum a b = if ltb a b then b else a

abbrev pub insert_route :
    {G : Type 0}
    → Map RouteId (ActiveRoute G)
    → Option (ActiveRoute G)
    → Map RouteId (ActiveRoute G)
insert_route m none = m
insert_route m (some r) = insert r.route_id r m

module _ {N X G : Type 0} where
  unfoldable pub derive_route_delivery :
      MeshTopology N X G → NodeId → NodeId → ℕ → ActiveRouteDelivery
  derive_route_delivery t owner terminal hop_count_hint =
      if owner == terminal
      then local
      else if is_usable (topology_edge t owner terminal) && leb hop_count_hint 1
      then direct terminal
      else reachable (maximum hop_count_hint 1)

  -- The loop of `path_transport_mix`, on the mix so far.
  unfoldable pub mix_along :
      MeshTopology N X G → List TransportKind → List NodeId → Option (List TransportKind)
  mix_along t mix [] = some mix
  mix_along t mix (a ∷ []) = some mix
  mix_along t mix (a ∷ b ∷ rest) = elim (topology_edge t a b) [
    | none ↦ none
    | some edge ↦
        let kind = transport_kind edge in
        mix_along t (if contains mix kind then mix else mix ++ kind ∷ []) (b ∷ rest)
  ]

  unfoldable pub path_transport_mix :
      MeshTopology N X G → ActiveRouteDelivery → NodeId → NodeId → Option (List TransportKind)
  unfolding mix_along
  path_transport_mix t local owner terminal = some []
  path_transport_mix t (direct next_hop) owner terminal = mix_along t [] (owner ∷ terminal ∷ [])
  path_transport_mix t (reachable hop_count_hint) owner terminal = none

  unfoldable pub route_with :
      MeshTopology N X G → ObservedRoute G → NodeId → ActiveRouteDelivery → ActiveRoute G
  unfolding path_transport_mix
  route_with t route terminal delivery =
      let owner = route.owner_node_id in
      record {
        route_id = route.route_id;
        owner_node_id = owner;
        destination = route.destination;
        terminal_node_id = terminal;
        engine = route.engine_id;
        shape_visibility = route_shape_visibility route.route_shape;
        protocol_mix = mix_or (path_transport_mix t delivery owner terminal) route.protocol_mix;
        delivery_mode = route.delivery_mode;
        multicast_group_id = none;
        multicast_receivers = [];
        delivery = delivery;
        observed_at_tick = maximum route.last_validated_at_tick route.lifecycle_updated_at_tick;
      }

  unfoldable pub route_to : MeshTopology N X G → ObservedRoute G → NodeId → ActiveRoute G
  unfolding derive_route_delivery
  route_to t route terminal =
      route_with t route terminal
        (derive_route_delivery t route.owner_node_id terminal (value_or route.hop_count_hint 1))

  unfoldable pub project_observed_route :
      MeshTopology N X G → ObservedRoute G → Option (ActiveRoute G)
  project_observed_route t route = elim route.destination [
    | DestinationId.other tag ↦ none
    | DestinationId.to_node terminal ↦
        if not (is_some (topology_node t terminal))
        then none
        else if not (is_some (topology_node t route.owner_node_id))
        then none
        else some (route_to t route terminal)
  ]

  -- `filter_map`, and `collect` into the map so far.
  unfoldable pub projected_routes :
      MeshTopology N X G
      → Map RouteId (ActiveRoute G)
      → Map RouteId (ObservedRoute G)
      → Map RouteId (ActiveRoute G)
  unfolding project_observed_route
  projected_routes t m [] = m
  projected_routes t m ((k, route) ∷ rest) =
      projected_routes t (insert_route m (project_observed_route t route)) rest

  unfoldable pub mesh_snapshot_from :
      EdgeObservations X → TopologySnapshot N X G → MeshTopology N X G
  unfolding projected_routes
  mesh_snapshot_from edge_observations generic =
      let snapshot : MeshTopology N X G = record {
        local_node_id = generic.local_node_id;
        observed_at_tick = generic.observed_at_tick;
        nodes = mesh_nodes generic.local_node_id generic.nodes;
        edges = mesh_edges edge_observations generic.links;
        active_routes = [];
      } in
      record snapshot { active_routes = projected_routes snapshot [] generic.active_routes }
