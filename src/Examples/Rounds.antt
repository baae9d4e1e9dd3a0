-- ===== src/Examples/Rounds.antt =====
-- Runs of the projector, of the bridge and of the client's task. The world is the list of events to
-- drain, and what was sent.
use jq_ble.Prelude.{
  ℕ, ◌+◌, ◌≡◌, ◌≢◌, ◌↔◌, refl, Bool, true, none, some, List, [], ◌∷◌, inr, Bytes, ok, err, Eq,
  arith, get, nat_eq, list_eq, pair_eq, pair_order,
}
use jq_ble.Prelude.Actions.{Ends}
use jq_ble.Core.Endpoints.{id_eq, id_order}
use jq_ble.Core.Events.{
  Observation, FactSourceClass, RoutingEvidenceClass, OriginAuthenticationClass,
  TransportIngressEvent, TransportObservation,
}
use jq_ble.Link.Gatt.{gatt_endpoint}
use jq_ble.Link.Cast.{UnicastCast, link_observation_from_ble_event}
use jq_ble.Nodes.Equality.{link_eq, observation_eq}
use jq_ble.Nodes.Equality.Topologies.{mesh_topology_eq}
use jq_ble.Client.Multicast.{delivery_assumption_unsupported}
use jq_ble.Client.Projector.{
  Configuration, HostProjector, TopologyProjector, new_projector, ingest_transport_observation,
}
use jq_ble.Client.Projector.Freshness.{IsFresh, Flags, Step, Step-Flags}
use jq_ble.Client.Projector.Runs.{Runs, initial, next, Runs-IsFresh}
use jq_ble.Client.Bridge.{
  panic, no_change, host_default, RouterRoundOutcome, BridgeHost, BleHostBridge, with_clock,
  advance_round,
}
use jq_ble.Client.Bridge.Promises.{Accounts, Loses}
use jq_ble.Client.Bridge.Rounds.{advance_round-Accounts}
use jq_ble.Client.Bridge.Panics.{HasUnsupported, advance_round-HasUnsupported}
use jq_ble.Client.Bridge.Runs.{Runs as Rounds, Runs-IsEmpty}
use jq_ble.Client.Framing.{encode_client_payload}
use jq_ble.Client.Task.{RouterHost, ClientTask, drive_bridge_round}
use jq_ble.Client.Task.Sends.{handle_send}
use jq_ble.Client.Task.Sync.{IsInSync, Any, drive_bridge_round-IsInSync}
use jq_ble.Client.Task.Receipts.{IsUnicastCache, Remembers, Caches, handle_send-Remembers}
use jq_ble.Examples.Radio.{node_one, device_a}
use jq_ble.Examples.Mesh.{node_two, route_one, active_link, seen, observed_mesh}

abbrev unit_beq_iff : (a b : Unit {0}) → (true ≡ true) ↔ (a ≡ b)
unit_beq_iff a b = (λ h. refl, λ h. refl)

instance abbrev unit_eq : Eq (Unit {0})
unit_eq = record { beq = λ a b. true; decides = unit_beq_iff }

abbrev Nothing : Type 0
Nothing = Unit {0}

abbrev tiny_configuration : Observation (Configuration Nothing Nothing Nothing)
tiny_configuration = record {
  value = record { nodes = (node_one, tt) ∷ []; links = []; rest = tt };
  source_class = FactSourceClass.local;
  evidence_class = RoutingEvidenceClass.direct_observation;
  origin_authentication = OriginAuthenticationClass.controlled;
  observed_at_tick = 1;
}

-- Its state is the tick of the topology it was given.
abbrev tiny_projector :
    HostProjector Nothing Nothing Nothing Nothing Nothing Nothing (RouterRoundOutcome Nothing) ℕ
tiny_projector = record {
  new = λ id topology. topology.observed_at_tick;
  snapshot = λ tick. record observed_mesh { observed_at_tick = tick };
  ingest_topology = λ topology tick. topology.observed_at_tick;
  ingest_engine_capabilities = λ c tick. tick;
  ingest_materialized_route = λ m tick. tick;
  ingest_round_outcome = λ o tick. tick;
  route_capable_node = λ id endpoint tick. tt;
}

abbrev first_projector : TopologyProjector Nothing Nothing Nothing Nothing ℕ
unfolding new_projector
first_projector = new_projector tiny_projector node_one tiny_configuration

abbrev link_seen : TransportObservation Nothing
link_seen = TransportObservation.link_observed node_two (seen active_link 5)

first_run : Runs tiny_projector node_one first_projector
unfolding get first_projector
first_run = initial tiny_configuration tt refl

abbrev second_projector : Bool × TopologyProjector Nothing Nothing Nothing Nothing ℕ
unfolding ingest_transport_observation
second_projector = ingest_transport_observation tiny_projector link_seen first_projector

second_observation : Step tiny_projector first_projector second_projector
unfolding second_projector
second_observation = Step.observed link_seen first_projector

Runs-IsFresh_example : IsFresh tiny_projector second_projector.1
Runs-IsFresh_example =
    Runs-IsFresh tiny_projector node_one second_projector.1
      (next first_projector second_projector first_run second_observation)

Step-Flags_example : Flags tiny_projector first_projector.snapshot second_projector
Step-Flags_example = Step-Flags tiny_projector first_projector second_projector second_observation

-- The world.
pub record World : Type 0 where
  pub arriving : List (TransportIngressEvent Nothing)
  pub now : ℕ
  pub sent : List Bytes

abbrev tiny_outcome : RouterRoundOutcome Nothing
tiny_outcome = record { engine_change = no_change; next_round_hint = host_default; rest = tt }

abbrev tiny_bridge_host : BridgeHost World Nothing Nothing ℕ ℕ
tiny_bridge_host = record {
  router_ingest = λ o w. (none, w);
  router_advance_round = λ w. (ok tiny_outcome, w);
  drain_raw_ingress = λ w. (ok w.arriving, record w { arriving = [] });
  flush_outbound = λ w. (ok 0, w);
  pending_outbound = λ w. 0;
  snapshot = λ w. 0;
  advance_tick = λ w. (w.now, record w { now = w.now + 1 });
  next_order_stamp = λ w. (1, w);
}

abbrev accepting_cast : UnicastCast Nothing Nothing
accepting_cast = record {
  shape_unicast_evidence = λ os. tt ∷ [];
  shape_unicast_delivery_support = λ es from to.
      record {
        payload_bytes_max = 512;
        confidence_permille = 700;
        bidirectional_confidence_permille = 0;
      }
      ∷ [];
  simulated_link = λ endpoint rtt state observed loss valid tick l c d. record {
    endpoint = endpoint;
    runtime_state = state;
    detail = tt;
  };
}

abbrev two_events : List (TransportIngressEvent Nothing)
two_events =
    TransportIngressEvent.payload_received node_two (gatt_endpoint device_a) (7 ∷ [])
    ∷ TransportIngressEvent.link_observed node_two active_link FactSourceClass.local
        RoutingEvidenceClass.direct_observation OriginAuthenticationClass.unauthenticated
    ∷ []

abbrev small_world : World
small_world = record { arriving = two_events; now = 9; sent = [] }

-- Room for one of the two events.
abbrev small_bridge : BleHostBridge World Nothing
unfolding with_clock
small_bridge = with_clock node_one small_world 1

advance_round-Accounts_example :
    Ends
      (Accounts tiny_bridge_host accepting_cast 9
        (record small_world { now = 10; arriving = [] })
        two_events
        small_bridge)
      (Loses tiny_bridge_host accepting_cast 9
        (record small_world { now = 10; arriving = [] })
        two_events
        small_bridge)
      (advance_round tiny_bridge_host accepting_cast small_bridge)
unfolding small_bridge with_clock
advance_round-Accounts_example =
    advance_round-Accounts tiny_bridge_host accepting_cast small_bridge 9
      (record small_world { now = 10 }) (record small_world { now = 10; arriving = [] }) two_events
      refl refl (omega arith) (omega arith)

-- A profile that supports nothing, and a bridge with room for both events.
abbrev refusing_cast : UnicastCast Nothing Nothing
refusing_cast = record accepting_cast { shape_unicast_delivery_support = λ es from to. [] }

abbrev wide_bridge : BleHostBridge World Nothing
unfolding with_clock
wide_bridge = with_clock node_one small_world 2

wide_panic : (advance_round tiny_bridge_host refusing_cast wide_bridge).0 ≡ err panic
unfolding advance_round wide_bridge link_observation_from_ble_event
wide_panic = refl

advance_round-HasUnsupported_example : HasUnsupported refusing_cast 9 node_one two_events
unfolding wide_bridge
advance_round-HasUnsupported_example =
    advance_round-HasUnsupported tiny_bridge_host refusing_cast wide_bridge 9
      (record small_world { now = 10 }) (record small_world { now = 10; arriving = [] }) two_events
      refl refl (omega arith) wide_panic

small_calm : (advance_round tiny_bridge_host accepting_cast small_bridge).0 ≢ err panic
unfolding advance_round small_bridge
small_calm same = cc

small_run : Rounds tiny_bridge_host accepting_cast small_bridge
unfolding small_bridge
small_run = Rounds.initial node_one small_world 1

Runs-IsEmpty_example :
    (advance_round tiny_bridge_host accepting_cast small_bridge).1.pending_transport_observations
    ≡ []
Runs-IsEmpty_example =
    Runs-IsEmpty tiny_bridge_host accepting_cast
      (advance_round tiny_bridge_host accepting_cast small_bridge).1
      (Rounds.next small_bridge small_run small_calm)

abbrev tiny_router : RouterHost World Nothing Nothing Nothing Nothing ℕ ℕ Nothing
tiny_router = record {
  environment = λ v. tt;
  active_route = λ id w. true;
  forward_payload = λ id payload w. (none, w);
  activate_route = λ objective w. (ok tt, w);
  ingest_topology_observation = λ topology w. w;
  ingest_policy_inputs = λ inputs w. w;
  route_id = λ m. route_one;
  selected_neighbor = λ m. some node_two;
  no_candidate = 0;
  send_transport_to = λ intent payload w. (none, record w { sent = payload ∷ w.sent });
  admitted_delivery_intent = λ group receivers support. inr delivery_assumption_unsupported;
}

abbrev tiny_task : ClientTask World Nothing Nothing Nothing Nothing ℕ
unfolding small_bridge first_projector
tiny_task = record {
  local_node_id = node_one;
  bridge = small_bridge;
  projector = first_projector;
  multicast_admission = record { subscribers = [] };
  route_cache = [];
  incoming = [];
  topology = first_projector.snapshot;
  topology_updates = [];
}

tiny_task-IsInSync : IsInSync tiny_bridge_host accepting_cast tiny_projector tiny_router tiny_task
unfolding tiny_task
tiny_task-IsInSync = refl

drive_bridge_round-IsInSync_example :
    Ends
      (λ p t. IsInSync tiny_bridge_host accepting_cast tiny_projector tiny_router t)
      (Any tiny_bridge_host accepting_cast tiny_projector tiny_router)
      (drive_bridge_round tiny_bridge_host accepting_cast tiny_projector tiny_router tiny_task)
drive_bridge_round-IsInSync_example =
    drive_bridge_round-IsInSync tiny_bridge_host accepting_cast tiny_projector tiny_router tiny_task
      tiny_task-IsInSync

empty_cache : IsUnicastCache tiny_task.route_cache
unfolding tiny_task get
empty_cache k c found = absurd cc

handle_send-Remembers_example :
    Ends
      (λ receipt t. Remembers node_two receipt t.route_cache)
      (Caches tiny_bridge_host accepting_cast tiny_projector tiny_router IsUnicastCache)
      (handle_send tiny_bridge_host accepting_cast tiny_projector tiny_router node_two
        (7 ∷ [])
        tiny_task)
handle_send-Remembers_example =
    handle_send-Remembers tiny_bridge_host accepting_cast tiny_projector tiny_router node_two
      (7 ∷ []) tiny_task empty_cache

abbrev framed_seven : List (TransportObservation Nothing)
unfolding encode_client_payload
framed_seven =
    TransportObservation.payload_received node_two (gatt_endpoint device_a)
      (encode_client_payload (7 ∷ [])) 9
    ∷ []
