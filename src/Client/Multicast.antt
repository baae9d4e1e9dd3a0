-- ===== src/Client/Multicast.antt =====
-- crates/jq-client/src/multicast.rs, and `gatt_notify_multicast_support` of
-- crates/jq-link-profile/src/cast.rs that it calls. The evidence shaping of
-- `jacquard_cast_support` is a parameter.
pub mod Subscribers
use jq_ble.Prelude.{
  ℕ, Bool, true, false, not, ◌||◌, Option, none, some, List, [], ◌∷◌, ◌==◌, nat_eq, Map, get, has,
  insert, remove, map, any, is_empty, filter_map, ltb, if◌then◌else◌, inl, inr, ◌⊎◌,
}
use jq_ble.Core.Endpoints.{NodeId, MulticastGroupId, LinkEndpoint, id_eq, id_order, endpoint_eq}
use jq_ble.Core.Events.{LinkRuntimeState, TransportObservation}
use jq_ble.Link.Cast.{CastEvidenceMeta, cast_evidence_meta}
use jq_ble.Link.Gatt.{gatt_notify_fanout_endpoint}

pub record ReceiverCoverageObservation : Type 0 where
  pub receiver : NodeId
  pub confidence_permille : ℕ

-- `G` is `CastGroupId`.
pub record MulticastObservation (G : Type 0) : Type 0 where
  pub sender : NodeId
  pub group_id : G
  pub receivers : List ReceiverCoverageObservation
  pub group_pressure_permille : ℕ
  pub fanout_limit : ℕ
  pub payload_bytes_max : ℕ
  pub meta : CastEvidenceMeta

pub record MulticastDeliverySupport (G : Type 0) : Type 0 where
  pub group_id : G
  pub receivers : List ReceiverCoverageObservation

-- `TransportDeliverySupport::Multicast`.
pub record TransportDeliverySupport : Type 0 where
  pub endpoint : LinkEndpoint
  pub group_id : MulticastGroupId
  pub receivers : List NodeId

pub data RouteAdmissionRejection : Type 0 where
  delivery_assumption_unsupported : RouteAdmissionRejection

-- The functions of `jacquard_cast_support` under the default policy; the objective is to reach all
-- of the receivers of a group.
pub record Cast (E G : Type 0) : Type 0 where
  pub cast_group_id : MulticastGroupId → G
  pub to_route_group_id : G → MulticastGroupId
  pub shape_multicast_evidence : List (MulticastObservation G) → List E
  pub shape_multicast_delivery_support :
      List E → NodeId → G → List NodeId → List (MulticastDeliverySupport G)

abbrev first_support :
    {G : Type 0} → List (MulticastDeliverySupport G) → Option (MulticastDeliverySupport G)
first_support [] = none
first_support (support ∷ rest) = some support

abbrev pub covered : NodeId → ReceiverCoverageObservation
covered receiver = record { receiver = receiver; confidence_permille = 700 }

abbrev pub receiver_of : ReceiverCoverageObservation → NodeId
receiver_of r = r.receiver

abbrev tick_max : ℕ → ℕ → ℕ
tick_max a b = if ltb a b then b else a

-- `max().unwrap_or(Tick(0))`.
abbrev pub max_or_zero : List ℕ → ℕ
max_or_zero [] = 0
max_or_zero (a ∷ rest) = tick_max a (max_or_zero rest)

unfoldable pub latest_observed_tick : Map NodeId ℕ → List NodeId → ℕ
latest_observed_tick subscribers receivers =
    max_or_zero (filter_map (λ receiver. get receiver subscribers) receivers)

abbrev pub is_faulted : LinkRuntimeState → Bool
is_faulted LinkRuntimeState.faulted = true
is_faulted _ = false

pub record MulticastAdmission : Type 0 where
  pub subscribers : Map NodeId ℕ

module _ {X : Type 0} where
  unfoldable pub ingest_transport_observation :
      MulticastAdmission → TransportObservation X → MulticastAdmission
  ingest_transport_observation a (TransportObservation.payload_received from e bytes tick) = a
  ingest_transport_observation a (TransportObservation.link_observed remote_node_id o) =
      if not (o.value.endpoint == gatt_notify_fanout_endpoint)
      then a
      else if is_faulted o.value.runtime_state
      then record a { subscribers = remove remote_node_id a.subscribers }
      else record a { subscribers = insert remote_node_id o.observed_at_tick a.subscribers }

  unfoldable pub is_multicast_fanout_observation : TransportObservation X → Bool
  is_multicast_fanout_observation (TransportObservation.payload_received from e bytes tick) = false
  is_multicast_fanout_observation (TransportObservation.link_observed remote_node_id o) =
      o.value.endpoint == gatt_notify_fanout_endpoint

module _ {E G : Type 0} (c : Cast E G) where
  abbrev pub multicast_of : Option (MulticastDeliverySupport G) → Option TransportDeliverySupport
  multicast_of none = none
  multicast_of (some support) = some (record {
    endpoint = gatt_notify_fanout_endpoint;
    group_id = c.to_route_group_id support.group_id;
    receivers = map receiver_of support.receivers;
  })

  unfoldable pub shape_ble_notify_multicast_delivery_support :
      NodeId
      → MulticastGroupId
      → List NodeId
      → CastEvidenceMeta
      → Option (MulticastDeliverySupport G)
  shape_ble_notify_multicast_delivery_support local_node_id group_id receivers meta =
      let observation : MulticastObservation G = record {
        sender = local_node_id;
        group_id = c.cast_group_id group_id;
        receivers = map covered receivers;
        group_pressure_permille = 100;
        fanout_limit = 8;
        payload_bytes_max = gatt_notify_fanout_endpoint.mtu_bytes;
        meta = meta;
      } in
      first_support (
        c.shape_multicast_delivery_support (c.shape_multicast_evidence (observation ∷ []))
          local_node_id (c.cast_group_id group_id) receivers)

  unfoldable pub gatt_notify_multicast_support :
      NodeId → MulticastGroupId → List NodeId → ℕ → ℕ → Option TransportDeliverySupport
  unfolding shape_ble_notify_multicast_delivery_support
  gatt_notify_multicast_support local_node_id group_id receivers observed_at_tick order =
      multicast_of (
        shape_ble_notify_multicast_delivery_support local_node_id group_id receivers
          (cast_evidence_meta observed_at_tick order))

  abbrev pub ok_or_unsupported :
      Option TransportDeliverySupport → TransportDeliverySupport ⊎ RouteAdmissionRejection
  ok_or_unsupported none = inr delivery_assumption_unsupported
  ok_or_unsupported (some support) = inl support

  unfoldable pub support_for :
      MulticastAdmission
      → NodeId
      → MulticastGroupId
      → List NodeId
      → TransportDeliverySupport ⊎ RouteAdmissionRejection
  unfolding gatt_notify_multicast_support
  support_for a local_node_id group_id receivers =
      if is_empty receivers || any (λ receiver. not (has receiver a.subscribers)) receivers
      then inr delivery_assumption_unsupported
      else ok_or_unsupported (
          gatt_notify_multicast_support local_node_id group_id receivers
            (latest_observed_tick a.subscribers receivers) 0)
