-- ===== src/Examples/Hops.antt =====
-- Runs of the demo's pump and relay.
use jq_ble.Prelude.{
  arith, take, ℕ, zero, suc, ◌-◌, none, ◌≡◌, ◌↔◌, refl, true, false, ◌∷◌, [], Result, ok, err,
}
use jq_ble.Prelude.{get, pair_eq, pair_order}
use jq_ble.Core.Endpoints.{NodeId, id_eq, id_order}
use jq_ble.Client.Task.{BleClientError}
use jq_ble.Demo.Frames.{encode_application_frame}
use jq_ble.Demo.Pump.{
  JacquardIncomingMessage, JacquardRelayDrop, deliver, relay, pump, IsFor, IsBound,
  pump-IsFor-IsBound,
}
use jq_ble.Demo.Relay.{ErrorKinds, RelayClient, relay_framed_payload}
use jq_ble.Demo.Attempts.{Relays, relay_framed_payload-Relays}
use jq_ble.Nodes.Topology.{MeshTopology, local_node, remote_node}
use jq_ble.Demo.Views.{sanitize_topology}
use jq_ble.Demo.Views.Shown.{get-sanitize_topology}
use jq_ble.Examples.Mesh.{node_two, route_one, route_to_two, seen, active_link}
use jq_ble.Examples.Radio.{node_one}

abbrev sender : NodeId
sender = record { bytes = 2 ∷ take 31 node_one.bytes }

abbrev greeting : JacquardIncomingMessage
greeting = record {
  from_node_id = sender;
  transport_from_node_id = sender;
  payload = b'h' ∷ b'i' ∷ [];
}

abbrev passing : JacquardRelayDrop
passing = record { from_node_id = node_one; destination_node_id = sender }

greeting_arrives :
    pump node_one sender (encode_application_frame sender node_one greeting.payload)
    ≡ deliver greeting
unfolding pump encode_application_frame
greeting_arrives = refl

pump-IsFor-IsBound_example :
    ((pump node_one sender (encode_application_frame sender node_one greeting.payload)
        ≡ deliver greeting)
      ↔ IsFor node_one sender (encode_application_frame sender node_one greeting.payload) greeting)
    × ((pump node_one sender (encode_application_frame sender node_one greeting.payload)
          ≡ relay passing [])
        ↔ IsBound node_one sender
            (encode_application_frame sender node_one greeting.payload)
            passing
            [])
pump-IsFor-IsBound_example =
    pump-IsFor-IsBound node_one sender (encode_application_frame sender node_one greeting.payload)
      greeting passing [] refl

-- A client whose send succeeds once the state has come down to zero.
abbrev flaky : RelayClient ℕ (Unit {0}) (Unit {0})
flaky = record { send = λ to payload w. (answer w, w - 1); interval = λ w. w }
  where
    answer : ℕ → Result (BleClientError (Unit {0}) (Unit {0})) (Unit {0})
    answer zero = ok tt
    answer (suc n) = err (BleClientError.transport_error tt)

abbrev all_transient : ErrorKinds (Unit {0}) (Unit {0})
all_transient = record {
  is_no_candidate = λ e. false;
  transport_of = λ e. none;
  is_transient = λ e. true;
}

third_attempt : relay_framed_payload all_transient flaky sender [] 3 2 ≡ (true, 0)
unfolding relay_framed_payload
third_attempt = refl

too_late : relay_framed_payload all_transient flaky sender [] 2 2 ≡ (false, 0)
unfolding relay_framed_payload
too_late = refl

relay_framed_payload-Relays_example :
    Relays all_transient flaky sender [] 3 0 2
      (relay_framed_payload all_transient flaky sender [] 3 2)
relay_framed_payload-Relays_example =
    relay_framed_payload-Relays all_transient flaky sender [] 3 2 (omega arith)

-- A node, another one that has an edge to it, and a route to that; the edge back is not known.
abbrev small_mesh : MeshTopology (Unit {0}) (Unit {0}) (Unit {0})
small_mesh = record {
  local_node_id = node_one;
  observed_at_tick = 4;
  nodes = (node_one, local_node node_one tt) ∷ (node_two, remote_node node_two tt) ∷ [];
  edges =
      (
        (node_two, node_one),
        record { from_node_id = node_two; to_node_id = node_one; observation = seen active_link 3 },
      )
      ∷ [];
  active_routes = (route_one, route_to_two) ∷ [];
}

get-sanitize_topology_example :
    (get (node_two, node_one) (sanitize_topology small_mesh).edges ≡ none)
    × (get node_two (sanitize_topology small_mesh).nodes ≡ none)
    × (get route_one (sanitize_topology small_mesh).active_routes ≡ none)
unfolding get route_to_two
get-sanitize_topology_example =
    get-sanitize_topology small_mesh (node_two, node_one) node_two route_one (tt, tt)
      ((refl, tt), (tt, tt)) (tt, tt)
