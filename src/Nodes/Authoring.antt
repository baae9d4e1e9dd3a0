-- ===== src/Nodes/Authoring.antt =====
-- crates/jq-node-profile/src/authoring.rs: the builders, and the validation of `build`.
pub mod Routes
pub mod Builds
pub mod Outcome
pub mod Validity
use jq_ble.Prelude.{
  ℕ, Bool, true, false, not, Option, none, some, List, [], ◌∷◌, ◌++◌, ◌==◌, leb, ltb, is_empty,
  contains, Map, get, has, if◌then◌else◌, Result, ok, err, ◌>>=◌, ◌>>◌, collect_into, pair_eq,
  pair_order,
}
use jq_ble.Core.Endpoints.{
  NodeId, RouteId, MulticastGroupId, TransportKind, id_eq, id_order, transport_kind_eq,
}
use jq_ble.Core.Routes.{DestinationId, RouteShapeVisibility, TransportDeliveryMode}
use jq_ble.Nodes.Topology.{
  local_role, remote_role, MeshNode, MeshEdge, transport_kind, ActiveRouteDelivery, local, direct,
  reachable, ActiveRoute, hop_node_ids, MeshTopology, MeshTopologyBuildError, missing_local_node,
  duplicate_node, duplicate_edge, edge_references_unknown_node, duplicate_route,
  route_owner_missing, route_terminal_missing, route_hop_node_missing,
  local_delivery_targets_remote, local_delivery_has_protocol_mix, direct_delivery_next_hop_mismatch,
  reachable_delivery_collapses_to_direct, route_missing_edge, route_protocol_mix_missing_transport,
  reachable_delivery_requires_multi_hop,
}

-- `ActiveRouteBuilder` has the fields of the route that `build` makes of it.
abbrev pub ActiveRouteBuilder : Type 0 → Type 0
ActiveRouteBuilder G = ActiveRoute G

module _ {G : Type 0} where
  unfoldable pub new_route :
      RouteId → NodeId → DestinationId → NodeId → G → ℕ → ActiveRouteBuilder G
  new_route route_id owner destination terminal engine observed_at_tick = record {
    route_id = route_id;
    owner_node_id = owner;
    destination = destination;
    terminal_node_id = terminal;
    engine = engine;
    shape_visibility = RouteShapeVisibility.explicit_path;
    protocol_mix = [];
    delivery_mode = TransportDeliveryMode.unicast;
    multicast_group_id = none;
    multicast_receivers = [];
    delivery = if owner == terminal then local else direct terminal;
    observed_at_tick = observed_at_tick;
  }

  unfoldable pub set_local : ActiveRouteBuilder G → ActiveRouteBuilder G
  set_local b = record b { delivery = local; protocol_mix = [] }

  unfoldable pub set_direct : ActiveRouteBuilder G → NodeId → ActiveRouteBuilder G
  set_direct b next_hop_node_id = record b { delivery = direct next_hop_node_id }

  -- `hop_count_hint.max(1)`.
  unfoldable pub set_reachable : ActiveRouteBuilder G → ℕ → ActiveRouteBuilder G
  set_reachable b hop_count_hint = record b {
    delivery = reachable (if ltb hop_count_hint 1 then 1 else hop_count_hint);
  }

  unfoldable pub with_protocol_mix :
      ActiveRouteBuilder G → List TransportKind → ActiveRouteBuilder G
  with_protocol_mix b protocol_mix = record b { protocol_mix = protocol_mix }

  unfoldable pub with_delivery_mode :
      ActiveRouteBuilder G → TransportDeliveryMode → ActiveRouteBuilder G
  with_delivery_mode b delivery_mode = record b { delivery_mode = delivery_mode }

  unfoldable pub with_multicast_group :
      ActiveRouteBuilder G → MulticastGroupId → List NodeId → ActiveRouteBuilder G
  with_multicast_group b group_id receivers = record b {
    delivery_mode = TransportDeliveryMode.multicast;
    multicast_group_id = some group_id;
    multicast_receivers = receivers;
  }

  unfoldable pub with_shape_visibility :
      ActiveRouteBuilder G → RouteShapeVisibility → ActiveRouteBuilder G
  with_shape_visibility b shape_visibility = record b { shape_visibility = shape_visibility }

abbrev pub Checked : Type 0
Checked = Result MeshTopologyBuildError (Unit {0})

abbrev pub no_check : {A : Type 0} → A → Checked
no_check a = ok tt

abbrev is_local : {N : Type 0} → Option (MeshNode N) → Bool
is_local none = false
is_local (some node) = elim node.role [ local_role ↦ true | remote_role ↦ false ]

abbrev pub MeshNodes : Type 0 → Type 0
MeshNodes N = Map NodeId (MeshNode N)

abbrev pub MeshEdges : Type 0 → Type 0
MeshEdges X = Map (NodeId × NodeId) (MeshEdge X)

abbrev pub key_of_node : {N : Type 0} → MeshNode N → NodeId
key_of_node node = node.node_id

abbrev pub key_of_edge : {X : Type 0} → MeshEdge X → NodeId × NodeId
key_of_edge edge = (edge.from_node_id, edge.to_node_id)

abbrev pub key_of_route : {G : Type 0} → ActiveRoute G → RouteId
key_of_route route = route.route_id

module _ {N : Type 0} where
  unfoldable pub check_local : NodeId → MeshNodes N → Result MeshTopologyBuildError (MeshNodes N)
  check_local local_node_id nodes =
      if is_local (get local_node_id nodes)
      then ok nodes
      else err (missing_local_node local_node_id)

  unfoldable pub collect_nodes :
      List (MeshNode N) → NodeId → Result MeshTopologyBuildError (MeshNodes N)
  unfolding check_local
  collect_nodes nodes local_node_id =
      collect_into key_of_node no_check duplicate_node [] nodes >>= check_local local_node_id

  -- The inner loop of `collect_edges`.
  unfoldable pub check_edge : {X : Type 0} → MeshNodes N → MeshEdge X → Checked
  check_edge nodes edge =
      if not (has edge.from_node_id nodes)
      then err (edge_references_unknown_node edge.from_node_id edge.to_node_id edge.from_node_id)
      else if not (has edge.to_node_id nodes)
      then err (edge_references_unknown_node edge.from_node_id edge.to_node_id edge.to_node_id)
      else ok tt

  unfoldable pub collect_edges :
      {X : Type 0} → List (MeshEdge X) → MeshNodes N → Result MeshTopologyBuildError (MeshEdges X)
  collect_edges edges nodes =
      collect_into key_of_edge (check_edge nodes) (λ k. duplicate_edge k.0 k.1) [] edges

  -- The first loop of `validate_path`.
  unfoldable pub check_hops : MeshNodes N → RouteId → List NodeId → Checked
  check_hops nodes route_id [] = ok tt
  check_hops nodes route_id (node_id ∷ rest) =
      let later = check_hops nodes route_id rest in
      if not (has node_id nodes) then err (route_hop_node_missing route_id node_id) else later

  module _ {X G : Type 0} (nodes : MeshNodes N) (edges : MeshEdges X) where
    -- The second loop of `validate_path`.
    unfoldable pub check_edge_of : ActiveRoute G → NodeId → NodeId → Option (MeshEdge X) → Checked
    check_edge_of r from_node_id to_node_id none =
        err (route_missing_edge r.route_id from_node_id to_node_id)
    check_edge_of r from_node_id to_node_id (some edge) =
        if not (contains r.protocol_mix (transport_kind edge))
        then err (route_protocol_mix_missing_transport r.route_id (transport_kind edge))
        else ok tt

    unfoldable pub check_pairs : ActiveRoute G → List NodeId → Checked
    unfolding check_edge_of
    check_pairs r [] = ok tt
    check_pairs r (a ∷ []) = ok tt
    check_pairs r (a ∷ b ∷ rest) =
        check_edge_of r a b (get (a, b) edges) >> check_pairs r (b ∷ rest)

    unfoldable pub validate_path : ActiveRoute G → List NodeId → Checked
    unfolding check_hops check_pairs
    validate_path r hops = check_hops nodes r.route_id hops >> check_pairs r hops

    unfoldable pub validate_delivery : ActiveRoute G → ActiveRouteDelivery → Checked
    unfolding validate_path hop_node_ids
    validate_delivery r local =
        if not (r.owner_node_id == r.terminal_node_id)
        then err (local_delivery_targets_remote r.route_id r.owner_node_id r.terminal_node_id)
        else if not (is_empty r.protocol_mix)
        then err (local_delivery_has_protocol_mix r.route_id)
        else ok tt
    validate_delivery r (direct next_hop) =
        if not (next_hop == r.terminal_node_id)
        then err (direct_delivery_next_hop_mismatch r.route_id next_hop r.terminal_node_id)
        else validate_path r (hop_node_ids r)
    validate_delivery r (reachable hop_count_hint) =
        if leb hop_count_hint 1
        then err (reachable_delivery_requires_multi_hop r.route_id)
        else if r.owner_node_id == r.terminal_node_id
        then err (reachable_delivery_collapses_to_direct r.route_id)
        else ok tt

    unfoldable pub validate_route : ActiveRoute G → Checked
    unfolding validate_delivery
    validate_route r =
        if not (has r.owner_node_id nodes)
        then err (route_owner_missing r.route_id r.owner_node_id)
        else if not (has r.terminal_node_id nodes)
        then err (route_terminal_missing r.route_id r.terminal_node_id)
        else validate_delivery r r.delivery

    unfoldable pub collect_routes :
        List (ActiveRoute G) → Result MeshTopologyBuildError (Map RouteId (ActiveRoute G))
    unfolding validate_route
    collect_routes routes = collect_into key_of_route validate_route duplicate_route [] routes

pub record MeshTopologyBuilder (N X G : Type 0) : Type 0 where
  pub local_node_id : NodeId
  pub observed_at_tick : ℕ
  pub nodes : List (MeshNode N)
  pub edges : List (MeshEdge X)
  pub active_routes : List (ActiveRoute G)

module _ {N X G : Type 0} where
  unfoldable pub new_topology : NodeId → ℕ → MeshTopologyBuilder N X G
  new_topology local_node_id observed_at_tick = record {
    local_node_id = local_node_id;
    observed_at_tick = observed_at_tick;
    nodes = [];
    edges = [];
    active_routes = [];
  }

  unfoldable pub with_node : MeshTopologyBuilder N X G → MeshNode N → MeshTopologyBuilder N X G
  with_node b node = record b { nodes = b.nodes ++ node ∷ [] }

  unfoldable pub with_edge : MeshTopologyBuilder N X G → MeshEdge X → MeshTopologyBuilder N X G
  with_edge b edge = record b { edges = b.edges ++ edge ∷ [] }

  unfoldable pub with_active_route :
      MeshTopologyBuilder N X G → ActiveRoute G → MeshTopologyBuilder N X G
  with_active_route b route = record b { active_routes = b.active_routes ++ route ∷ [] }

  abbrev pub assembled :
      MeshTopologyBuilder N X G
      → MeshNodes N
      → MeshEdges X
      → Map RouteId (ActiveRoute G)
      → MeshTopology N X G
  assembled b nodes edges active_routes = record {
    local_node_id = b.local_node_id;
    observed_at_tick = b.observed_at_tick;
    nodes = nodes;
    edges = edges;
    active_routes = active_routes;
  }

  unfoldable pub build :
      MeshTopologyBuilder N X G → Result MeshTopologyBuildError (MeshTopology N X G)
  build b = do
    nodes ← collect_nodes b.nodes b.local_node_id
    edges ← collect_edges b.edges nodes
    active_routes ← collect_routes nodes edges b.active_routes
    ok (assembled b nodes edges active_routes)
