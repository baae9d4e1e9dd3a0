-- ===== src/Demo/Views.antt =====
-- crates/demo/src/lib.rs, `sanitize_topology`: what a host shows of the mesh.
pub mod Shown
use jq_ble.Prelude.{
  Bool, ◌&&◌, List, [], ◌∷◌, Map, retain_entries, contains, ◌==◌, pair_eq, pair_order,
}
use jq_ble.Core.Endpoints.{NodeId, RouteId, id_eq, id_order}
use jq_ble.Nodes.Topology.{MeshNode, MeshEdge, ActiveRoute, MeshTopology}

abbrev pub is_outgoing : {X : Type 0} → NodeId → NodeId × NodeId → MeshEdge X → Bool
is_outgoing local_node_id k edge = k.0 == local_node_id

abbrev pub targets : {X : Type 0} → Map (NodeId × NodeId) (MeshEdge X) → List NodeId
targets [] = []
targets ((k, edge) ∷ rest) = k.1 ∷ targets rest

abbrev pub is_visible_node : {N : Type 0} → List NodeId → NodeId → MeshNode N → Bool
is_visible_node visible node_id node = contains visible node_id

abbrev pub is_visible_route : {G : Type 0} → List NodeId → RouteId → ActiveRoute G → Bool
is_visible_route visible route_id route =
    contains visible route.owner_node_id && contains visible route.terminal_node_id

module _ {N X G : Type 0} where
  unfoldable pub visible_node_ids : MeshTopology N X G → List NodeId
  visible_node_ids t =
      t.local_node_id ∷ targets (retain_entries (is_outgoing t.local_node_id) t.edges)

  -- `into_iter().filter(..).collect()` keeps the order of the keys.
  unfoldable pub sanitize_topology : MeshTopology N X G → MeshTopology N X G
  unfolding visible_node_ids
  sanitize_topology t = record {
    local_node_id = t.local_node_id;
    observed_at_tick = t.observed_at_tick;
    nodes = retain_entries (is_visible_node (visible_node_ids t)) t.nodes;
    edges = retain_entries (is_outgoing t.local_node_id) t.edges;
    active_routes = retain_entries (is_visible_route (visible_node_ids t)) t.active_routes;
  }
