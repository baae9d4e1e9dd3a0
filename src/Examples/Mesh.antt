-- ===== src/Examples/Mesh.antt =====
-- Runs of the node profile and of the projected mesh.
use jq_ble.Prelude.{
  ℕ, ◌≡◌, refl, some, [], ◌∷◌, ok, err, get, insert, contains, collect_into, pair_eq, pair_order,
}
use jq_ble.Core.Endpoints.{NodeId, RouteId, TransportKind, id_eq, id_order}
use jq_ble.Core.Events.{
  Link, LinkRuntimeState, Observation, FactSourceClass, RoutingEvidenceClass,
  OriginAuthenticationClass,
}
use jq_ble.Core.Routes.{DestinationId, TransportDeliveryMode}
use jq_ble.Link.Gatt.{gatt_endpoint}
use jq_ble.Nodes.Topology.{
  MeshEdge, MeshTopology, ActiveRoute, local_node, remote_node, topology_route, missing_local_node,
}
use jq_ble.Nodes.Authoring.{
  MeshTopologyBuilder, new_route, with_protocol_mix, build, collect_nodes, collect_edges,
  check_edge, collect_routes,
}
use jq_ble.Nodes.Authoring.Validity.{IsValid, Represents, Defect}
use jq_ble.Nodes.Authoring.Outcome.{build_sound, build_complete, build-Defect}
use jq_ble.Nodes.Equality.{link_eq, observation_eq}
use jq_ble.Nodes.Equality.Topologies.{mesh_topology_eq}
use jq_ble.Client.Snapshot.{
  ObservedRouteShape, ObservedRoute, TopologySnapshot, mesh_snapshot_from, projected_routes,
  project_observed_route, route_to, route_with, derive_route_delivery, path_transport_mix,
  mix_along,
}
use jq_ble.Client.Snapshot.Routes.{IsProjected, mesh_snapshot_from-IsProjected}
use jq_ble.Examples.Radio.{node_one, device_a}

abbrev pub node_two : NodeId
node_two = record { bytes = 2 ∷ [] }

abbrev pub route_one : RouteId
route_one = record { bytes = 1 ∷ [] }

abbrev pub active_link : Link (Unit {0})
active_link = record {
  endpoint = gatt_endpoint device_a;
  runtime_state = LinkRuntimeState.active;
  detail = tt;
}

abbrev pub seen : Link (Unit {0}) → ℕ → Observation (Link (Unit {0}))
seen link tick = record {
  value = link;
  source_class = FactSourceClass.local;
  evidence_class = RoutingEvidenceClass.direct_observation;
  origin_authentication = OriginAuthenticationClass.unauthenticated;
  observed_at_tick = tick;
}

abbrev edge_one_two : MeshEdge (Unit {0})
edge_one_two = record {
  from_node_id = node_one;
  to_node_id = node_two;
  observation = seen active_link 3;
}

unfoldable pub route_to_two : ActiveRoute (Unit {0})
unfolding with_protocol_mix new_route
route_to_two =
    with_protocol_mix (new_route route_one node_one (DestinationId.to_node node_two) node_two tt 3)
      (TransportKind.ble_gatt ∷ [])

abbrev pair_mesh : MeshTopologyBuilder (Unit {0}) (Unit {0}) (Unit {0})
pair_mesh = record {
  local_node_id = node_one;
  observed_at_tick = 4;
  nodes = local_node node_one tt ∷ remote_node node_two tt ∷ [];
  edges = edge_one_two ∷ [];
  active_routes = route_to_two ∷ [];
}

abbrev built_pair : MeshTopology (Unit {0}) (Unit {0}) (Unit {0})
built_pair = record {
  local_node_id = node_one;
  observed_at_tick = 4;
  nodes = (node_one, local_node node_one tt) ∷ (node_two, remote_node node_two tt) ∷ [];
  edges = ((node_one, node_two), edge_one_two) ∷ [];
  active_routes = (route_one, route_to_two) ∷ [];
}

build_pair : build pair_mesh ≡ ok built_pair
unfolding build collect_nodes collect_into get insert collect_edges check_edge collect_routes
    route_to_two contains gatt_endpoint
build_pair = refl

build_sound_example : IsValid pair_mesh × Represents pair_mesh built_pair
build_sound_example = build_sound pair_mesh built_pair build_pair

build_complete_example :
    (t : MeshTopology (Unit {0}) (Unit {0}) (Unit {0})) × (build pair_mesh ≡ ok t)
build_complete_example = build_complete pair_mesh build_sound_example.0

abbrev no_local : MeshTopologyBuilder (Unit {0}) (Unit {0}) (Unit {0})
no_local = record pair_mesh { nodes = remote_node node_one tt ∷ [] }

build-no_local : build no_local ≡ err (missing_local_node node_one)
unfolding build collect_nodes collect_into get insert
build-no_local = refl

build-Defect_example : Defect no_local (missing_local_node node_one)
build-Defect_example = build-Defect no_local (missing_local_node node_one) build-no_local

abbrev observed_route : ObservedRoute (Unit {0})
observed_route = record {
  route_id = route_one;
  destination = DestinationId.to_node node_two;
  owner_node_id = node_one;
  engine_id = tt;
  route_shape = ObservedRouteShape.explicit_path;
  hop_count_hint = some 1;
  protocol_mix = [];
  delivery_mode = TransportDeliveryMode.unicast;
  last_validated_at_tick = 3;
  lifecycle_updated_at_tick = 2;
}

abbrev pub observed_mesh : TopologySnapshot (Unit {0}) (Unit {0}) (Unit {0})
observed_mesh = record {
  local_node_id = node_one;
  observed_at_tick = 4;
  nodes = (node_one, tt) ∷ (node_two, tt) ∷ [];
  links = ((node_one, node_two), record { link = active_link; observed_at_tick = 3 }) ∷ [];
  active_routes = (route_one, observed_route) ∷ [];
}

projected_route : topology_route (mesh_snapshot_from [] observed_mesh) route_one ≡ some route_to_two
unfolding get insert contains gatt_endpoint route_to_two with_protocol_mix new_route
    mesh_snapshot_from projected_routes project_observed_route route_to route_with
    derive_route_delivery path_transport_mix mix_along
projected_route = refl

mesh_snapshot_from-IsProjected_example :
    IsProjected (mesh_snapshot_from [] observed_mesh) route_to_two
    × (route_to_two.route_id ≡ route_one)
mesh_snapshot_from-IsProjected_example =
    mesh_snapshot_from-IsProjected [] observed_mesh route_one route_to_two projected_route
