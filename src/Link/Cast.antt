-- ===== src/Link/Cast.antt =====
-- crates/jq-link-profile/src/cast.rs, the link observations. The evidence shaping of
-- `jacquard_cast_support` under its default policy and the link builder of
-- `jacquard_mem_link_profile` are parameters, with evidence `E`.
use jq_ble.Prelude.{
  ℕ, Bool, true, false, not, if◌then◌else◌, Option, none, some, List, [], ◌∷◌, first,
}
use jq_ble.Core.Endpoints.{NodeId, TransportKind, LinkEndpoint}
use jq_ble.Core.Events.{
  Link, LinkRuntimeState, FactSourceClass, RoutingEvidenceClass, OriginAuthenticationClass,
  TransportIngressEvent, TransportObservation,
}

-- The arguments of `CastEvidenceMeta::new`, in their order.
pub record CastEvidenceMeta : Type 0 where
  pub observed_at_tick : ℕ
  pub duration_ms : ℕ
  pub valid_for_ms : ℕ
  pub order : ℕ

abbrev pub cast_evidence_meta : ℕ → ℕ → CastEvidenceMeta
cast_evidence_meta observed_at_tick order = record {
  observed_at_tick = observed_at_tick;
  duration_ms = 0;
  valid_for_ms = 30000;
  order = order;
}

pub record UnicastObservation : Type 0 where
  pub from : NodeId
  pub to : NodeId
  pub directional_confidence_permille : ℕ
  pub reverse_confirmation_permille : Option ℕ
  pub payload_bytes_max : ℕ
  pub meta : CastEvidenceMeta

pub record UnicastDeliverySupport : Type 0 where
  pub payload_bytes_max : ℕ
  pub confidence_permille : ℕ
  pub bidirectional_confidence_permille : ℕ

-- The objective of `shape_unicast_delivery_support` is its two nodes. `simulated_link` takes the
-- arguments of the builder's calls: the profile's round-trip estimate, the runtime state, the observed
-- round trip, the loss, the validity and the tick, and the three parts of the quality.
pub record UnicastCast (E X : Type 0) : Type 0 where
  pub shape_unicast_evidence : List UnicastObservation → List E
  pub shape_unicast_delivery_support : List E → NodeId → NodeId → List UnicastDeliverySupport
  pub simulated_link : LinkEndpoint → ℕ → LinkRuntimeState → ℕ → ℕ → ℕ → ℕ → ℕ → ℕ → ℕ → Link X

-- The forward and the reverse confidence.
abbrev pub confidence_of : TransportKind → ℕ × Option ℕ
confidence_of TransportKind.ble_l2cap = (900, some 900)
confidence_of TransportKind.ble_gatt = (700, none)
confidence_of _ = (700, none)

unfoldable pub unicast_observation :
    NodeId → NodeId → LinkEndpoint → CastEvidenceMeta → UnicastObservation
unicast_observation local_node_id remote_node_id endpoint meta = record {
  from = local_node_id;
  to = remote_node_id;
  directional_confidence_permille = (confidence_of endpoint.transport_kind).0;
  reverse_confirmation_permille = (confidence_of endpoint.transport_kind).1;
  payload_bytes_max = endpoint.mtu_bytes;
  meta = meta;
}

abbrev pub is_active : LinkRuntimeState → Bool
is_active LinkRuntimeState.active = true
is_active _ = false

module _ {E X : Type 0} (c : UnicastCast E X) where
  unfoldable pub shape_ble_unicast_delivery_support :
      NodeId → NodeId → LinkEndpoint → CastEvidenceMeta → Option UnicastDeliverySupport
  unfolding unicast_observation
  shape_ble_unicast_delivery_support local_node_id remote_node_id endpoint meta =
      let observation = unicast_observation local_node_id remote_node_id endpoint meta in
      let evidence = c.shape_unicast_evidence (observation ∷ []) in
      first (c.shape_unicast_delivery_support evidence local_node_id remote_node_id)

  unfoldable pub link_from_unicast_delivery_support :
      LinkEndpoint → UnicastDeliverySupport → ℕ → Link X
  link_from_unicast_delivery_support endpoint support observed_at_tick =
      c.simulated_link (record endpoint { mtu_bytes = support.payload_bytes_max }) 150
        LinkRuntimeState.active 150 0 30000 observed_at_tick 0 support.confidence_permille
        support.bidirectional_confidence_permille

  -- `none` is the panic of `expect`.
  unfoldable pub resolved_link : LinkEndpoint → ℕ → Option UnicastDeliverySupport → Option (Link X)
  unfolding link_from_unicast_delivery_support
  resolved_link endpoint observed_at_tick none = none
  resolved_link endpoint observed_at_tick (some support) =
      some (link_from_unicast_delivery_support endpoint support observed_at_tick)

  unfoldable pub observed_link : NodeId → NodeId → Link X → ℕ → ℕ → Option (Link X)
  unfolding shape_ble_unicast_delivery_support resolved_link
  observed_link local_node_id remote_node_id link observed_at_tick order =
      if not (is_active link.runtime_state)
      then some link
      else resolved_link link.endpoint observed_at_tick (
          shape_ble_unicast_delivery_support local_node_id remote_node_id link.endpoint
            (cast_evidence_meta observed_at_tick order))

  abbrev pub observation_of :
      NodeId
      → FactSourceClass
      → RoutingEvidenceClass
      → OriginAuthenticationClass
      → ℕ
      → Option (Link X)
      → Option (TransportObservation X)
  observation_of remote_node_id source evidence origin tick none = none
  observation_of remote_node_id source evidence origin tick (some link) = some (
      TransportObservation.link_observed remote_node_id (record {
        value = link;
        source_class = source;
        evidence_class = evidence;
        origin_authentication = origin;
        observed_at_tick = tick;
      }))

  unfoldable pub link_observation_from_ble_event :
      NodeId → TransportIngressEvent X → ℕ → ℕ → Option (TransportObservation X)
  unfolding observed_link
  link_observation_from_ble_event local_node_id
        (TransportIngressEvent.payload_received from endpoint payload) tick order =
      some (TransportObservation.payload_received from endpoint payload tick)
  link_observation_from_ble_event local_node_id
        (TransportIngressEvent.link_observed remote link source evidence origin) tick order =
      observation_of remote source evidence origin tick
        (observed_link local_node_id remote link tick order)
