-- ===== src/Nodes/Topology.antt =====
-- crates/jq-node-profile/src/topology.rs. `N` is a node's profile and state, `X` the part of a link
-- that is only carried, `G` a routing engine's identifier.
use jq_ble.Prelude.{ℕ, Option, List, [], ◌∷◌, Map, get, pair_eq, pair_order}
use jq_ble.Core.Endpoints.{NodeId, RouteId, MulticastGroupId, TransportKind, id_eq, id_order}
use jq_ble.Core.Events.{Link, Observation}
use jq_ble.Core.Routes.{DestinationId, RouteShapeVisibility, TransportDeliveryMode}

pub data MeshNodeRole : Type 0 where
  local_role remote_role : MeshNodeRole

pub record MeshNode (N : Type 0) : Type 0 where
  pub node_id : NodeId
  pub role : MeshNodeRole
  pub node : N

abbrev pub local_node : {N : Type 0} → NodeId → N → MeshNode N
local_node node_id node = record { node_id = node_id; role = local_role; node = node }

abbrev pub remote_node : {N : Type 0} → NodeId → N → MeshNode N
remote_node node_id node = record { node_id = node_id; role = remote_role; node = node }

pub record MeshEdge (X : Type 0) : Type 0 where
  pub from_node_id : NodeId
  pub to_node_id : NodeId
  pub observation : Observation (Link X)

-- `MeshEdge::transport_kind`.
abbrev pub transport_kind : {X : Type 0} → MeshEdge X → TransportKind
transport_kind edge = edge.observation.value.endpoint.transport_kind

pub data ActiveRouteDelivery : Type 0 where
  local : ActiveRouteDelivery
  -- The next hop.
  direct : NodeId → ActiveRouteDelivery
  -- The hop count hint.
  reachable : ℕ → ActiveRouteDelivery

pub record ActiveRoute (G : Type 0) : Type 0 where
  pub route_id : RouteId
  pub owner_node_id : NodeId
  pub destination : DestinationId
  pub terminal_node_id : NodeId
  pub engine : G
  pub shape_visibility : RouteShapeVisibility
  pub protocol_mix : List TransportKind
  pub delivery_mode : TransportDeliveryMode
  pub multicast_group_id : Option MulticastGroupId
  pub multicast_receivers : List NodeId
  pub delivery : ActiveRouteDelivery
  pub observed_at_tick : ℕ

abbrev pub delivery_hop_node_ids : ActiveRouteDelivery → NodeId → NodeId → List NodeId
delivery_hop_node_ids local owner terminal = owner ∷ []
delivery_hop_node_ids (direct next_hop) owner terminal = owner ∷ terminal ∷ []
delivery_hop_node_ids (reachable hop_count_hint) owner terminal = owner ∷ terminal ∷ []

unfoldable pub hop_node_ids : {G : Type 0} → ActiveRoute G → List NodeId
hop_node_ids r = delivery_hop_node_ids r.delivery r.owner_node_id r.terminal_node_id

pub record MeshTopology (N X G : Type 0) : Type 0 where
  pub local_node_id : NodeId
  pub observed_at_tick : ℕ
  pub nodes : Map NodeId (MeshNode N)
  pub edges : Map (NodeId × NodeId) (MeshEdge X)
  pub active_routes : Map RouteId (ActiveRoute G)

-- `MeshTopology::node`, `edge` and `active_route`.
module _ {N X G : Type 0} (t : MeshTopology N X G) where
  abbrev pub topology_node : NodeId → Option (MeshNode N)
  topology_node node_id = get node_id t.nodes

  abbrev pub topology_edge : NodeId → NodeId → Option (MeshEdge X)
  topology_edge from_node_id to_node_id = get (from_node_id, to_node_id) t.edges

  abbrev pub topology_route : RouteId → Option (ActiveRoute G)
  topology_route route_id = get route_id t.active_routes

-- The fields of an error stand in the order of the source.
pub data MeshTopologyBuildError : Type 0 where
  missing_local_node duplicate_node : NodeId → MeshTopologyBuildError
  duplicate_edge : NodeId → NodeId → MeshTopologyBuildError
  edge_references_unknown_node : NodeId → NodeId → NodeId → MeshTopologyBuildError
  duplicate_route : RouteId → MeshTopologyBuildError
  route_owner_missing route_terminal_missing route_hop_node_missing :
      RouteId → NodeId → MeshTopologyBuildError
  local_delivery_targets_remote : RouteId → NodeId → NodeId → MeshTopologyBuildError
  local_delivery_has_protocol_mix : RouteId → MeshTopologyBuildError
  direct_delivery_next_hop_mismatch : RouteId → NodeId → NodeId → MeshTopologyBuildError
  reachable_delivery_collapses_to_direct : RouteId → MeshTopologyBuildError
  route_missing_edge : RouteId → NodeId → NodeId → MeshTopologyBuildError
  route_protocol_mix_missing_transport : RouteId → TransportKind → MeshTopologyBuildError
  reachable_delivery_requires_multi_hop : RouteId → MeshTopologyBuildError
