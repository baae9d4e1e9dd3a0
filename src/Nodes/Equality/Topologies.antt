-- ===== src/Nodes/Equality/Topologies.antt =====
-- The derived `PartialEq` of routes and topologies, crates/jq-node-profile/src/topology.rs.
use jq_ble.Prelude.{
  ◌≡◌, ◌↔◌, ap, Bool, true, false, ◌&&◌, Eq, ◌==◌, nat_eq, list_eq, list_beq_iff, option_eq,
  option_beq_iff, pair_eq, pair_order, arith,
}
use jq_ble.Core.Endpoints.{id_eq, transport_kind_eq}
use jq_ble.Core.Routes.{DestinationId, RouteShapeVisibility, TransportDeliveryMode}
use jq_ble.Nodes.Topology.{ActiveRouteDelivery, local, direct, reachable, ActiveRoute, MeshTopology}
use jq_ble.Nodes.Equality.{mesh_node_eq, mesh_edge_eq}

abbrev destination_beq : DestinationId → DestinationId → Bool
destination_beq (DestinationId.to_node a) (DestinationId.to_node b) = a == b
destination_beq (DestinationId.other m) (DestinationId.other n) = m == n
destination_beq _ _ = false

destination_beq_iff : (a b : DestinationId) → (destination_beq a b ≡ true) ↔ (a ≡ b)
destination_beq_iff (DestinationId.to_node a) (DestinationId.to_node b) =
    ground (arith, id_eq.decides a b)
destination_beq_iff (DestinationId.to_node a) (DestinationId.other n) = ground arith
destination_beq_iff (DestinationId.other m) b = ground arith

instance abbrev destination_eq : Eq DestinationId
destination_eq = record { beq = destination_beq; decides = destination_beq_iff }

abbrev shape_beq : RouteShapeVisibility → RouteShapeVisibility → Bool
shape_beq RouteShapeVisibility.explicit_path RouteShapeVisibility.explicit_path = true
shape_beq RouteShapeVisibility.corridor_envelope RouteShapeVisibility.corridor_envelope = true
shape_beq RouteShapeVisibility.next_hop_only RouteShapeVisibility.next_hop_only = true
shape_beq RouteShapeVisibility.opaque RouteShapeVisibility.opaque = true
shape_beq _ _ = false

shape_beq_iff : (a b : RouteShapeVisibility) → (shape_beq a b ≡ true) ↔ (a ≡ b)
shape_beq_iff RouteShapeVisibility.explicit_path b = ground arith
shape_beq_iff RouteShapeVisibility.corridor_envelope b = ground arith
shape_beq_iff RouteShapeVisibility.next_hop_only b = ground arith
shape_beq_iff RouteShapeVisibility.opaque b = ground arith

instance abbrev shape_eq : Eq RouteShapeVisibility
shape_eq = record { beq = shape_beq; decides = shape_beq_iff }

abbrev mode_beq : TransportDeliveryMode → TransportDeliveryMode → Bool
mode_beq TransportDeliveryMode.unicast TransportDeliveryMode.unicast = true
mode_beq TransportDeliveryMode.multicast TransportDeliveryMode.multicast = true
mode_beq TransportDeliveryMode.broadcast TransportDeliveryMode.broadcast = true
mode_beq _ _ = false

mode_beq_iff : (a b : TransportDeliveryMode) → (mode_beq a b ≡ true) ↔ (a ≡ b)
mode_beq_iff TransportDeliveryMode.unicast b = ground arith
mode_beq_iff TransportDeliveryMode.multicast b = ground arith
mode_beq_iff TransportDeliveryMode.broadcast b = ground arith

instance abbrev mode_eq : Eq TransportDeliveryMode
mode_eq = record { beq = mode_beq; decides = mode_beq_iff }

abbrev delivery_beq : ActiveRouteDelivery → ActiveRouteDelivery → Bool
delivery_beq local local = true
delivery_beq (direct a) (direct b) = a == b
delivery_beq (reachable m) (reachable n) = m == n
delivery_beq _ _ = false

delivery_beq_iff : (a b : ActiveRouteDelivery) → (delivery_beq a b ≡ true) ↔ (a ≡ b)
delivery_beq_iff local b = ground arith
delivery_beq_iff (direct a) (direct b) = ground (arith, id_eq.decides a b)
delivery_beq_iff (direct a) local = ground arith
delivery_beq_iff (direct a) (reachable n) = ground arith
delivery_beq_iff (reachable m) b = ground arith

instance abbrev delivery_eq : Eq ActiveRouteDelivery
delivery_eq = record { beq = delivery_beq; decides = delivery_beq_iff }

and_left : (p q : Bool) → (p && q) ≡ true → p ≡ true
and_left p q h = ground (arith, h)

and_right : (p q : Bool) → (p && q) ≡ true → q ≡ true
and_right p q h = ground (arith, h)

and_both : (p q : Bool) → p ≡ true → q ≡ true → (p && q) ≡ true
and_both p q h k = ground (arith, h, k)

module _ {G : Type 0} ⦃e : Eq G⦄ where
  -- The fields in two parts.
  abbrev path_beq : ActiveRoute G → ActiveRoute G → Bool
  path_beq a b =
      a.route_id == b.route_id
      && a.owner_node_id == b.owner_node_id
      && a.destination == b.destination
      && a.terminal_node_id == b.terminal_node_id
      && a.engine == b.engine
      && a.shape_visibility == b.shape_visibility

  path_beq_iff :
      (a b : ActiveRoute G)
      → (path_beq a b ≡ true) ↔ (
          (a.route_id ≡ b.route_id)
          × (a.owner_node_id ≡ b.owner_node_id)
          × (a.destination ≡ b.destination)
          × (a.terminal_node_id ≡ b.terminal_node_id)
          × (a.engine ≡ b.engine)
          × (a.shape_visibility ≡ b.shape_visibility))
  path_beq_iff a b = ground (
    arith,
    id_eq.decides a.route_id b.route_id,
    id_eq.decides a.owner_node_id b.owner_node_id,
    destination_beq_iff a.destination b.destination,
    id_eq.decides a.terminal_node_id b.terminal_node_id,
    e.decides a.engine b.engine,
    shape_beq_iff a.shape_visibility b.shape_visibility,
  )

  abbrev delivered_beq : ActiveRoute G → ActiveRoute G → Bool
  delivered_beq a b =
      a.protocol_mix == b.protocol_mix
      && a.delivery_mode == b.delivery_mode
      && a.multicast_group_id == b.multicast_group_id
      && a.multicast_receivers == b.multicast_receivers
      && a.delivery == b.delivery
      && a.observed_at_tick == b.observed_at_tick

  delivered_beq_iff :
      (a b : ActiveRoute G)
      → (delivered_beq a b ≡ true) ↔ (
          (a.protocol_mix ≡ b.protocol_mix)
          × (a.delivery_mode ≡ b.delivery_mode)
          × (a.multicast_group_id ≡ b.multicast_group_id)
          × (a.multicast_receivers ≡ b.multicast_receivers)
          × (a.delivery ≡ b.delivery)
          × (a.observed_at_tick ≡ b.observed_at_tick))
  delivered_beq_iff a b = ground (
    arith,
    list_beq_iff a.protocol_mix b.protocol_mix,
    mode_beq_iff a.delivery_mode b.delivery_mode,
    option_beq_iff a.multicast_group_id b.multicast_group_id,
    list_beq_iff a.multicast_receivers b.multicast_receivers,
    delivery_beq_iff a.delivery b.delivery,
  )

  abbrev pub active_route_beq : ActiveRoute G → ActiveRoute G → Bool
  active_route_beq a b = path_beq a b && delivered_beq a b

  pub active_route_beq_iff : (a b : ActiveRoute G) → (active_route_beq a b ≡ true) ↔ (a ≡ b)
  active_route_beq_iff a b = (
    λ h.
        let p = (path_beq_iff a b).0 (and_left (path_beq a b) (delivered_beq a b) h) in
        let q = (delivered_beq_iff a b).0 (and_right (path_beq a b) (delivered_beq a b) h) in
        λ i. record {
          route_id = p.0 i;
          owner_node_id = p.1 i;
          destination = p.2 i;
          terminal_node_id = p.3 i;
          engine = p.4 i;
          shape_visibility = p.5 i;
          protocol_mix = q.0 i;
          delivery_mode = q.1 i;
          multicast_group_id = q.2 i;
          multicast_receivers = q.3 i;
          delivery = q.4 i;
          observed_at_tick = q.5 i;
        },
    λ h.
        and_both (path_beq a b) (delivered_beq a b)
          ((path_beq_iff a b).1 (
            ap (λ (r : ActiveRoute G). r.route_id) h,
            ap (λ (r : ActiveRoute G). r.owner_node_id) h,
            ap (λ (r : ActiveRoute G). r.destination) h,
            ap (λ (r : ActiveRoute G). r.terminal_node_id) h,
            ap (λ (r : ActiveRoute G). r.engine) h,
            ap (λ (r : ActiveRoute G). r.shape_visibility) h,
          ))
          ((delivered_beq_iff a b).1 (
            ap (λ (r : ActiveRoute G). r.protocol_mix) h,
            ap (λ (r : ActiveRoute G). r.delivery_mode) h,
            ap (λ (r : ActiveRoute G). r.multicast_group_id) h,
            ap (λ (r : ActiveRoute G). r.multicast_receivers) h,
            ap (λ (r : ActiveRoute G). r.delivery) h,
            ap (λ (r : ActiveRoute G). r.observed_at_tick) h,
          )),
  )

  instance abbrev pub active_route_eq : Eq (ActiveRoute G)
  active_route_eq = record { beq = active_route_beq; decides = active_route_beq_iff }

module _ {N X G : Type 0} ⦃d : Eq N⦄ ⦃e : Eq X⦄ ⦃f : Eq G⦄ where
  abbrev pub mesh_topology_beq : MeshTopology N X G → MeshTopology N X G → Bool
  mesh_topology_beq a b =
      a.local_node_id == b.local_node_id
      && a.observed_at_tick == b.observed_at_tick
      && a.nodes == b.nodes
      && a.edges == b.edges
      && a.active_routes == b.active_routes

  pub mesh_topology_beq_iff : (a b : MeshTopology N X G) → (mesh_topology_beq a b ≡ true) ↔ (a ≡ b)
  mesh_topology_beq_iff a b = ground (
    arith,
    id_eq.decides a.local_node_id b.local_node_id,
    list_beq_iff a.nodes b.nodes,
    list_beq_iff a.edges b.edges,
    list_beq_iff a.active_routes b.active_routes,
  )

  instance abbrev pub mesh_topology_eq : Eq (MeshTopology N X G)
  mesh_topology_eq = record { beq = mesh_topology_beq; decides = mesh_topology_beq_iff }
