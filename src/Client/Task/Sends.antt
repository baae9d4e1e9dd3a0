-- ===== src/Client/Task/Sends.antt =====
-- crates/jq-client/src/client.rs, `ClientTask`: the sends.
use jq_ble.Prelude.{
  Bool, true, false, Option, none, some, List, Bytes, get, insert, remove, Result, ok, err, Eq, ◌⊎◌,
  inl, inr, pair_eq, pair_order,
}
use jq_ble.Prelude.Actions.{◌>>=◌, ◌>>◌, pure, fail}
use jq_ble.Core.Endpoints.{NodeId, RouteId, MulticastGroupId, LinkEndpoint, id_eq, id_order}
use jq_ble.Core.Events.{Link, Observation, TransportDeliveryIntent}
use jq_ble.Core.Routes.{TransportDeliveryMode}
use jq_ble.Link.Cast.{UnicastCast}
use jq_ble.Nodes.Topology.{MeshTopology, MeshEdge, topology_edge}
use jq_ble.Client.Multicast.{Cast, RouteAdmissionRejection, support_for}
use jq_ble.Client.Bridge.{BridgeHost, BleBridgeProgress, RouterRoundOutcome}
use jq_ble.Client.Projector.{HostProjector, ingest_materialized_route}
use jq_ble.Client.Routing.{default_objective}
use jq_ble.Client.Task.{
  BleClientError, route_error, transport_error, delivery_admission, QueuedTransportCommand,
  CachedRoute, RouterHost, ClientTask, Job, with_world, publish_if, publish_topology,
  drive_bridge_round,
}

pub data JacquardBleSendStage : Type 0 where
  queued_for_transport : JacquardBleSendStage

pub record JacquardBleSendReceipt : Type 0 where
  pub destination_node_id : NodeId
  pub route_id : RouteId
  pub next_hop_node_id : NodeId
  pub delivery_mode : TransportDeliveryMode
  pub endpoint : LinkEndpoint
  pub stage : JacquardBleSendStage

pub record JacquardBleMulticastReceipt : Type 0 where
  pub group_id : MulticastGroupId
  pub receivers : List NodeId
  pub delivery_mode : TransportDeliveryMode
  pub endpoint : LinkEndpoint
  pub stage : JacquardBleSendStage

-- `TransportDeliveryIntent::mode` and `endpoint`.
abbrev pub mode_of : TransportDeliveryIntent → TransportDeliveryMode
mode_of (TransportDeliveryIntent.unicast endpoint) = TransportDeliveryMode.unicast
mode_of (TransportDeliveryIntent.multicast endpoint group receivers) =
    TransportDeliveryMode.multicast
mode_of (TransportDeliveryIntent.broadcast endpoint) = TransportDeliveryMode.broadcast

abbrev pub endpoint_of : TransportDeliveryIntent → LinkEndpoint
endpoint_of (TransportDeliveryIntent.unicast endpoint) = endpoint
endpoint_of (TransportDeliveryIntent.multicast endpoint group receivers) = endpoint
endpoint_of (TransportDeliveryIntent.broadcast endpoint) = endpoint

unfoldable pub send_receipt : NodeId → RouteId → QueuedTransportCommand → JacquardBleSendReceipt
send_receipt destination_node_id route_id queued = record {
  destination_node_id = destination_node_id;
  route_id = route_id;
  next_hop_node_id = queued.next_hop_node_id;
  delivery_mode = mode_of queued.intent;
  endpoint = endpoint_of queued.intent;
  stage = queued_for_transport;
}

unfoldable pub multicast_receipt :
    MulticastGroupId → List NodeId → TransportDeliveryIntent → JacquardBleMulticastReceipt
multicast_receipt group_id receivers intent = record {
  group_id = group_id;
  receivers = receivers;
  delivery_mode = mode_of intent;
  endpoint = endpoint_of intent;
  stage = queued_for_transport;
}

module _ {E W X P R T N G V A Caps M H : Type 0} (bridge_host : BridgeHost W X P R T)
    (cast : UnicastCast E X)
    (projector_host : HostProjector N X G V Caps M (RouterRoundOutcome P) H)
    (router : RouterHost W N X V A R T M) ⦃same_link : Eq (Link X)⦄
    ⦃same_observation : Eq (Observation (Link X))⦄ ⦃same_mesh : Eq (MeshTopology N X G)⦄ where
  abbrev pub Send : Type 0 → Type 0
  Send B = Job bridge_host cast projector_host router B

  abbrev pub driven : Send (BleBridgeProgress X P)
  driven = drive_bridge_round bridge_host cast projector_host router

  abbrev pub no_route_candidate : {B : Type 0} → Option B → Send B
  no_route_candidate none = fail (route_error router.no_candidate)
  no_route_candidate (some a) = pure a

  abbrev pub command_to : NodeId → MeshEdge X → QueuedTransportCommand
  command_to next_hop edge = record {
    next_hop_node_id = next_hop;
    intent = TransportDeliveryIntent.unicast edge.observation.value.endpoint;
  }

  unfoldable pub command_for_route : M → Send QueuedTransportCommand
  command_for_route route = do
    next_hop ← no_route_candidate (router.selected_neighbor route)
    edge ← λ t. no_route_candidate (topology_edge t.projector.snapshot t.local_node_id next_hop) t
    pure (command_to next_hop edge)

  abbrev pub sent :
      ClientTask W X N G V H
      → Option T × W
      → Result (BleClientError R T) (Unit {0}) × ClientTask W X N G V H
  sent t (none, w) = (ok tt, with_world bridge_host cast projector_host router w t)
  sent t (some e, w) =
      (err (transport_error e), with_world bridge_host cast projector_host router w t)

  unfoldable pub queue_transport_command : TransportDeliveryIntent → Bytes → Send (Unit {0})
  queue_transport_command intent payload t =
      sent t (router.send_transport_to intent payload t.bridge.world)

  abbrev pub forwarded :
      ClientTask W X N G V H
      → Option R × W
      → Result (BleClientError R T) (Unit {0}) × ClientTask W X N G V H
  forwarded t (none, w) = (ok tt, with_world bridge_host cast projector_host router w t)
  forwarded t (some e, w) =
      (err (route_error e), with_world bridge_host cast projector_host router w t)

  abbrev pub forward : RouteId → Bytes → Send (Unit {0})
  forward route_id payload t = forwarded t (router.forward_payload route_id payload t.bridge.world)

  abbrev pub evict : NodeId → ClientTask W X N G V H → ClientTask W X N G V H
  evict to t = record t { route_cache = remove to t.route_cache }

  -- What follows the router's `forward_payload` of a cached route.
  unfoldable pub cached_forwarded :
      NodeId
      → CachedRoute
      → Bytes
      → Result (BleClientError R T) (Unit {0}) × ClientTask W X N G V H
      → Option (Result (BleClientError R T) JacquardBleSendReceipt) × ClientTask W X N G V H
  unfolding queue_transport_command send_receipt
  cached_forwarded to cached payload (ok done, t) =
      let (result, t1) =
        (do
          queue_transport_command cached.command.intent payload
          driven
          pure (send_receipt to cached.route_id cached.command))
          t in
      (some result, t1)
  cached_forwarded to cached payload (err e, t) = (none, evict to t)

  unfoldable pub forward_cached :
      NodeId
      → Bytes
      → Option CachedRoute
      → ClientTask W X N G V H
      → Option (Result (BleClientError R T) JacquardBleSendReceipt) × ClientTask W X N G V H
  unfolding cached_forwarded
  forward_cached to payload none t = (none, t)
  forward_cached to payload (some cached) t =
      elim (router.active_route cached.route_id t.bridge.world) [
        | false ↦ (none, t)
        | true ↦ cached_forwarded to cached payload (forward cached.route_id payload t)
      ]

  -- `none` sends the caller on to a new route.
  unfoldable pub try_cached_forward :
      NodeId
      → Bytes
      → ClientTask W X N G V H
      → Option (Result (BleClientError R T) JacquardBleSendReceipt) × ClientTask W X N G V H
  unfolding forward_cached
  try_cached_forward to payload t = forward_cached to payload (get to t.route_cache) t

  abbrev pub routed :
      ClientTask W X N G V H
      → Result R M × W
      → Result (BleClientError R T) M × ClientTask W X N G V H
  routed t (ok route, w) = (ok route, with_world bridge_host cast projector_host router w t)
  routed t (err e, w) = (err (route_error e), with_world bridge_host cast projector_host router w t)

  unfoldable pub activate : NodeId → Send M
  unfolding default_objective
  activate to t = routed t (router.activate_route (default_objective to) t.bridge.world)

  abbrev pub project_route : M → Send Bool
  project_route route t =
      let (changed, projector) = ingest_materialized_route projector_host route t.projector in
      (ok changed, record t { projector = projector })

  abbrev pub cache : NodeId → CachedRoute → Send (Unit {0})
  cache to entry t = (ok tt, record t { route_cache = insert to entry t.route_cache })

  unfoldable pub activate_and_forward : NodeId → Bytes → Send JacquardBleSendReceipt
  unfolding activate command_for_route queue_transport_command send_receipt publish_topology
  activate_and_forward to payload = do
    route ← activate to
    topology_changed ← project_route route
    forward (router.route_id route) payload
    queued ← command_for_route route
    queue_transport_command queued.intent payload
    cache to (record { route_id = router.route_id route; command = queued })
    driven
    publish_if bridge_host cast projector_host router topology_changed
    pure (send_receipt to (router.route_id route) queued)

  unfoldable pub or_activate :
      NodeId
      → Bytes
      → Option (Result (BleClientError R T) JacquardBleSendReceipt) × ClientTask W X N G V H
      → Result (BleClientError R T) JacquardBleSendReceipt × ClientTask W X N G V H
  unfolding activate_and_forward
  or_activate to payload (none, t) = activate_and_forward to payload t
  or_activate to payload (some result, t) = (result, t)

  unfoldable pub handle_send : NodeId → Bytes → Send JacquardBleSendReceipt
  unfolding try_cached_forward or_activate
  handle_send to payload t = or_activate to payload (try_cached_forward to payload t)

  abbrev or_rejection : {B : Type 0} → B ⊎ RouteAdmissionRejection → Send B
  or_rejection (inl a) = pure a
  or_rejection (inr rejection) = fail (delivery_admission rejection)

  unfoldable pub handle_send_multicast :
      {F Gr : Type 0}
      → Cast F Gr
      → MulticastGroupId
      → List NodeId
      → Bytes
      → Send JacquardBleMulticastReceipt
  unfolding queue_transport_command multicast_receipt support_for
  handle_send_multicast multicast group_id receivers payload = do
    support ← λ t.
        or_rejection
          (support_for multicast t.multicast_admission t.local_node_id group_id receivers) t
    intent ← or_rejection (router.admitted_delivery_intent group_id receivers support)
    queue_transport_command intent payload
    driven
    pure (multicast_receipt group_id receivers intent)
