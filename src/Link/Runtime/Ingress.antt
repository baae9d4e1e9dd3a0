-- ===== src/Link/Runtime/Ingress.antt =====
-- How the task hands events to the bridge: `emit_control_event`, its deferral queue, and payloads.
pub mod Order
use jq_ble.Prelude.{ℕ, true, false, List, [], ◌∷◌, ◌++◌, Bytes, if◌then◌else◌}
use jq_ble.Core.Endpoints.{NodeId, LinkEndpoint}
use jq_ble.Core.Events.{
  Link, LinkRuntimeState, TransportIngressEvent, FactSourceClass, RoutingEvidenceClass,
  OriginAuthenticationClass,
}
use jq_ble.Link.Host.{Host, control, payload}
use jq_ble.Link.Runtime.State.{Task}

abbrev pub ble_link_rtt_estimate_ms : ℕ
ble_link_rtt_estimate_ms = 150

module _ {W D C X : Type 0} (h : Host W D C X) where
  unfoldable pub link_carrier : LinkEndpoint → LinkRuntimeState → Link X
  link_carrier endpoint runtime_state = h.build_link endpoint ble_link_rtt_estimate_ms runtime_state

  unfoldable pub raw_ble_link_event :
      NodeId → LinkEndpoint → LinkRuntimeState → TransportIngressEvent X
  unfolding link_carrier
  raw_ble_link_event remote_node_id endpoint runtime_state =
      TransportIngressEvent.link_observed remote_node_id (link_carrier endpoint runtime_state)
        FactSourceClass.local RoutingEvidenceClass.direct_observation
        OriginAuthenticationClass.unauthenticated

  abbrev pub raw_ble_link_observed_event : NodeId → LinkEndpoint → TransportIngressEvent X
  raw_ble_link_observed_event remote_node_id endpoint =
      raw_ble_link_event remote_node_id endpoint LinkRuntimeState.active

  abbrev pub raw_ble_link_faulted_event : NodeId → LinkEndpoint → TransportIngressEvent X
  raw_ble_link_faulted_event remote_node_id endpoint =
      raw_ble_link_event remote_node_id endpoint LinkRuntimeState.faulted

  unfoldable pub emit_control_event : Task W D X → TransportIngressEvent X → Task W D X
  emit_control_event t event =
      let (accepted, w) = h.emit control event t.world in
      if accepted then record t { world = w } else record t {
        world = w;
        deferred_control_ingress = t.deferred_control_ingress ++ event ∷ [];
      }

  unfoldable pub emit_link_observed : Task W D X → NodeId → LinkEndpoint → Task W D X
  unfolding emit_control_event
  emit_link_observed t remote_node_id endpoint =
      emit_control_event t (raw_ble_link_observed_event remote_node_id endpoint)

  -- The loop of `flush_deferred_control_ingress`: what is left of the queue, and the next state.
  unfoldable pub flush_from :
      W → List (TransportIngressEvent X) → List (TransportIngressEvent X) × W
  flush_from w [] = ([], w)
  flush_from w (event ∷ rest) = elim ((h.emit control event w).0) [
    | true ↦ flush_from (h.emit control event w).1 rest
    | false ↦ (event ∷ rest, (h.emit control event w).1)
  ]

  unfoldable pub flush_deferred_control_ingress : Task W D X → Task W D X
  flush_deferred_control_ingress t =
      let (left, w) = flush_from t.world t.deferred_control_ingress in
      record t { world = w; deferred_control_ingress = left }

  -- A payload that the mailbox refuses is dropped.
  unfoldable pub emit_payload : Task W D X → NodeId → LinkEndpoint → Bytes → Task W D X
  emit_payload t from_node_id endpoint bytes = record t {
    world =
        (h.emit payload (TransportIngressEvent.payload_received from_node_id endpoint bytes)
          t.world).1;
  }

  -- The loop of `emit_faulted_links_for_device`.
  unfoldable pub emit_faulted_links : Task W D X → NodeId → List LinkEndpoint → Task W D X
  emit_faulted_links t node_id [] = t
  emit_faulted_links t node_id (endpoint ∷ rest) =
      emit_faulted_links (emit_control_event t (raw_ble_link_faulted_event node_id endpoint))
        node_id rest
