-- ===== src/Client/Task.antt =====
-- crates/jq-client/src/client.rs, `ClientTask`: the state, and the rounds of the bridge. The router,
-- the transport and the clock are the world `W` of the bridge.
pub mod Sends
pub mod Sync
pub mod Frame
pub mod Incoming
pub mod Receipts
use jq_ble.Prelude.{
  ℕ, ◌*◌, ◌||◌, Bool, true, false, Option, none, some, List, [], ◌∷◌, ◌++◌, leb, Bytes, Map, Result,
  ok, err, Eq, ◌⊎◌, if◌then◌else◌,
}
use jq_ble.Prelude.Actions.{◌>>=◌, ◌>>◌, Action, pure}
use jq_ble.Core.Endpoints.{NodeId, RouteId, MulticastGroupId}
use jq_ble.Core.Events.{Link, Observation, TransportObservation, TransportDeliveryIntent}
use jq_ble.Link.Cast.{UnicastCast}
use jq_ble.Nodes.Topology.{MeshTopology}
use jq_ble.Client.Framing.{decode_client_payload}
use jq_ble.Client.Multicast.{
  MulticastAdmission, RouteAdmissionRejection, TransportDeliverySupport,
  is_multicast_fanout_observation,
}
use jq_ble.Client.Multicast
use jq_ble.Client.Bridge.{
  BleBridgeError, BridgeHost, BleHostBridge, BleBridgeProgress, advanced, waiting,
  BleBridgeRoundReport, RouterRoundOutcome, RoutingTickHint, immediate, advance_round,
}
use jq_ble.Client.Projector.{
  Configuration, HostProjector, TopologyProjector, ingest_transport_observation,
  ingest_round_outcome,
}
use jq_ble.Client.Routing.{RoutingObjective, RoutingPolicyInputs, policy_inputs_for}

-- `panic` is that of `policy_inputs_for`; the one of a round is a `bridge_error`.
pub data BleClientError (R T : Type 0) : Type 0 where
  route_error : R → BleClientError R T
  bridge_error : BleBridgeError R T → BleClientError R T
  transport_error : T → BleClientError R T
  delivery_admission : RouteAdmissionRejection → BleClientError R T
  panic : BleClientError R T

pub record QueuedTransportCommand : Type 0 where
  pub next_hop_node_id : NodeId
  pub intent : TransportDeliveryIntent

pub record CachedRoute : Type 0 where
  pub route_id : RouteId
  pub command : QueuedTransportCommand

-- The rest of the router, of which `M` is a materialized route and `A` the environment, the sender of
-- the transport, and `admitted_delivery_intent` for a multicast objective, under
-- `ExactDeliveryOnly`.
pub record RouterHost (W N X V A R T M : Type 0) : Type 0 where
  pub environment : V → A
  pub active_route : RouteId → W → Bool
  pub forward_payload : RouteId → Bytes → W → Option R × W
  pub activate_route : RoutingObjective → W → Result R M × W
  pub ingest_topology_observation : Observation (Configuration N X V) → W → W
  pub ingest_policy_inputs : RoutingPolicyInputs N A → W → W
  pub route_id : M → RouteId
  pub selected_neighbor : M → Option NodeId
  -- `RouteSelectionError::NoCandidate`.
  pub no_candidate : R
  pub send_transport_to : TransportDeliveryIntent → Bytes → W → Option T × W
  pub admitted_delivery_intent :
      MulticastGroupId
      → List NodeId
      → TransportDeliverySupport
      → TransportDeliveryIntent ⊎ RouteAdmissionRejection

-- `incoming` and `topology_updates` are what the two broadcasts were sent, in order; `topology` is
-- the snapshot that the handle shares.
pub record ClientTask (W X N G V H : Type 0) : Type 0 where
  pub local_node_id : NodeId
  pub bridge : BleHostBridge W X
  pub projector : TopologyProjector N X G V H
  pub multicast_admission : MulticastAdmission
  pub route_cache : Map NodeId CachedRoute
  pub incoming : List (NodeId × Bytes)
  pub topology : MeshTopology N X G
  pub topology_updates : List (MeshTopology N X G)

-- `Duration::MAX` in nanoseconds.
abbrev pub duration_max : ℕ
duration_max = 18446744073709551615999999999

abbrev pub u32_of : ℕ → ℕ
u32_of n = if leb n 4294967295 then n else 4294967295

-- Durations are in nanoseconds.
unfoldable pub duration_for_tick_hint : ℕ → ℕ → ℕ
duration_for_tick_hint round_interval ticks =
    if leb (round_interval * u32_of ticks) duration_max
    then round_interval * u32_of ticks
    else duration_max

abbrev pub published : NodeId → Option Bytes → List (NodeId × Bytes)
published from none = []
published from (some payload) = (from, payload) ∷ []

abbrev pub payloads_in : {X : Type 0} → TransportObservation X → List (NodeId × Bytes)
payloads_in (TransportObservation.payload_received from endpoint payload tick) =
    published from (decode_client_payload payload)
payloads_in (TransportObservation.link_observed remote o) = []

-- The loop of `publish_incoming`.
unfoldable pub payloads : {X : Type 0} → List (TransportObservation X) → List (NodeId × Bytes)
payloads [] = []
payloads (o ∷ rest) = payloads_in o ++ payloads rest

module _ {E W X P R T N G V A Caps M H : Type 0} (bridge_host : BridgeHost W X P R T)
    (cast : UnicastCast E X)
    (projector_host : HostProjector N X G V Caps M (RouterRoundOutcome P) H)
    (router : RouterHost W N X V A R T M) ⦃same_link : Eq (Link X)⦄
    ⦃same_observation : Eq (Observation (Link X))⦄ ⦃same_mesh : Eq (MeshTopology N X G)⦄ where
  abbrev pub Job : Type 0 → Type 0
  Job B = Action (ClientTask W X N G V H) (BleClientError R T) B

  abbrev pub with_world : W → ClientTask W X N G V H → ClientTask W X N G V H
  with_world w t = record t { bridge = record t.bridge { world = w } }

  abbrev pub bridged :
      {B : Type 0}
      → ClientTask W X N G V H
      → Result (BleBridgeError R T) B × BleHostBridge W X
      → Result (BleClientError R T) B × ClientTask W X N G V H
  bridged t (ok a, b) = (ok a, record t { bridge = b })
  bridged t (err e, b) = (err (bridge_error e), record t { bridge = b })

  abbrev pub bridge_round : Job (BleBridgeProgress X P)
  bridge_round t = bridged t (advance_round bridge_host cast t.bridge)

  unfoldable pub publish_incoming :
      List (TransportObservation X) → ClientTask W X N G V H → ClientTask W X N G V H
  unfolding payloads
  publish_incoming observations t = record t { incoming = t.incoming ++ payloads observations }

  unfoldable pub publish_topology : ClientTask W X N G V H → ClientTask W X N G V H
  publish_topology t = record t {
    topology = t.projector.snapshot;
    topology_updates = t.topology_updates ++ t.projector.snapshot ∷ [];
  }

  -- The body of the loop of `apply_bridge_report`, and the loop.
  unfoldable pub apply_observation :
      TransportObservation X → ClientTask W X N G V H → Bool × ClientTask W X N G V H
  apply_observation o t =
      let t1 : ClientTask W X N G V H = record t {
        multicast_admission =
            jq_ble.Client.Multicast.ingest_transport_observation t.multicast_admission o;
      } in
      if is_multicast_fanout_observation o
      then (false, t1)
      else let (changed, projector) = ingest_transport_observation projector_host o t.projector in
        (changed, record t1 { projector = projector })

  unfoldable pub apply_observations :
      List (TransportObservation X) → ClientTask W X N G V H → Bool × ClientTask W X N G V H
  unfolding apply_observation
  apply_observations [] t = (false, t)
  apply_observations (o ∷ rest) t =
      let (first, t1) = apply_observation o t in
      let (later, t2) = apply_observations rest t1 in (first || later, t2)

  abbrev pub feed_inputs : Option (RoutingPolicyInputs N A) → Job (Unit {0})
  feed_inputs none t = (err panic, t)
  feed_inputs (some inputs) t =
      (ok tt, with_world (router.ingest_policy_inputs inputs t.bridge.world) t)

  -- The router is given the topology that changed.
  unfoldable pub feed_router : Bool → Job (Unit {0})
  feed_router false t = (ok tt, t)
  feed_router true t =
      let topology = t.projector.topology in
      let t1 = with_world (router.ingest_topology_observation topology t.bridge.world) t in
      feed_inputs (policy_inputs_for router.environment topology t.local_node_id) t1

  unfoldable pub apply_round_outcome :
      RouterRoundOutcome P → ClientTask W X N G V H → Bool × ClientTask W X N G V H
  apply_round_outcome outcome t =
      let (changed, projector) = ingest_round_outcome projector_host outcome t.projector in
      (changed, record t { projector = projector })

  -- What follows the loop and `publish_incoming`.
  unfoldable pub finish_report : BleBridgeRoundReport X P → Bool → Job Bool
  unfolding feed_router apply_round_outcome
  finish_report report changed = do
    feed_router changed
    late ← λ t. let (late, t1) = apply_round_outcome report.router_outcome t in (ok late, t1)
    pure (changed || late)

  unfoldable pub apply_bridge_report : BleBridgeRoundReport X P → Job Bool
  unfolding apply_observations publish_incoming finish_report
  apply_bridge_report report t =
      let (changed, t1) = apply_observations report.ingested_transport_observations t in
      finish_report report changed (publish_incoming report.ingested_transport_observations t1)

  unfoldable pub apply_bridge_progress : BleBridgeProgress X P → Job Bool
  unfolding apply_bridge_report
  apply_bridge_progress (advanced report) = apply_bridge_report report
  apply_bridge_progress (waiting wait_state) = pure false

  abbrev pub is_immediate : RoutingTickHint → Bool
  is_immediate immediate = true
  is_immediate _ = false

  abbrev pub run_follow_up : BleBridgeProgress X P → Bool
  run_follow_up (advanced report) = is_immediate report.router_outcome.next_round_hint
  run_follow_up (waiting wait_state) = false

  abbrev pub publish_if : Bool → Job (Unit {0})
  publish_if false t = (ok tt, t)
  publish_if true t = (ok tt, publish_topology t)

  -- The second round of a call, its progress the final one.
  abbrev pub follow_up : Bool → BleBridgeProgress X P → Bool → Job (Bool × BleBridgeProgress X P)
  follow_up false progress changed = pure (changed, progress)
  follow_up true progress changed = do
    next ← bridge_round
    late ← apply_bridge_progress next
    pure (changed || late, next)

  unfoldable pub drive_bridge_round : Job (BleBridgeProgress X P)
  unfolding apply_bridge_progress publish_topology
  drive_bridge_round = do
    progress ← bridge_round
    changed ← apply_bridge_progress progress
    last ← follow_up (run_follow_up progress) progress changed
    publish_if last.0
    pure last.1
