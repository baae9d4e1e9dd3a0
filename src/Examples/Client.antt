-- ===== src/Examples/Client.antt =====
-- Runs of the client's parts.
use jq_ble.Prelude.{◌≡◌, ◌≢◌, ◌↔◌, refl, true, some, [], ◌∷◌, get, has, All, inl, map, nat_eq}
use jq_ble.Core.Endpoints.{MulticastGroupId, id_eq, id_order}
use jq_ble.Core.Events.{
  LinkRuntimeState, TransportObservation, FactSourceClass, RoutingEvidenceClass,
  OriginAuthenticationClass,
}
use jq_ble.Link.Gatt.{gatt_notify_fanout_endpoint}
use jq_ble.Client.Framing.{
  encode_client_payload, decode_client_payload, decode_client_payload-encode_client_payload,
}
use jq_ble.Client.Multicast.{
  MulticastAdmission, Cast, TransportDeliverySupport, covered, receiver_of, support_for,
  gatt_notify_multicast_support, shape_ble_notify_multicast_delivery_support,
}
use jq_ble.Client.Multicast.Subscribers.{
  ingest_all, last_seen, get-ingest_all, support_for-subscribed,
}
use jq_ble.Examples.Radio.{node_one}

decode_client_payload-encode_client_payload_example :
    (decode_client_payload (b'J' ∷ b'Q' ∷ []) ≡ some [])
    ↔ ((b'J' ∷ b'Q' ∷ []) ≡ encode_client_payload [])
decode_client_payload-encode_client_payload_example =
    decode_client_payload-encode_client_payload (b'J' ∷ b'Q' ∷ []) []

-- A shaping that supports whatever is asked.
abbrev willing : Cast (Unit {0}) MulticastGroupId
willing = record {
  cast_group_id = λ g. g;
  to_route_group_id = λ g. g;
  shape_multicast_evidence = λ _. tt ∷ [];
  shape_multicast_delivery_support =
      λ _ _ g ns. record { group_id = g; receivers = map covered ns } ∷ [];
}

abbrev subscribed_one : MulticastAdmission
subscribed_one = record { subscribers = (node_one, 5) ∷ [] }

abbrev lost : TransportObservation (Unit {0})
lost = TransportObservation.link_observed node_one (record {
  value = record {
    endpoint = gatt_notify_fanout_endpoint;
    runtime_state = LinkRuntimeState.faulted;
    detail = tt;
  };
  source_class = FactSourceClass.local;
  evidence_class = RoutingEvidenceClass.direct_observation;
  origin_authentication = OriginAuthenticationClass.unauthenticated;
  observed_at_tick = 7;
})

get-ingest_all_example :
    get node_one (ingest_all subscribed_one (lost ∷ [])).subscribers
    ≡ last_seen node_one (get node_one subscribed_one.subscribers) (lost ∷ [])
get-ingest_all_example = get-ingest_all subscribed_one (lost ∷ []) node_one

abbrev group_one : MulticastGroupId
group_one = record { bytes = [] }

abbrev admitted : TransportDeliverySupport
admitted = record {
  endpoint = gatt_notify_fanout_endpoint;
  group_id = group_one;
  receivers = map receiver_of (map covered (node_one ∷ []));
}

one_admitted : support_for willing subscribed_one node_one group_one (node_one ∷ []) ≡ inl admitted
unfolding support_for gatt_notify_multicast_support shape_ble_notify_multicast_delivery_support get
one_admitted = refl

support_for-subscribed_example :
    ((node_one ∷ []) ≢ [])
    × All (λ r. has r subscribed_one.subscribers ≡ true) (node_one ∷ [])
    × (admitted.endpoint ≡ gatt_notify_fanout_endpoint)
support_for-subscribed_example =
    support_for-subscribed willing subscribed_one node_one group_one (node_one ∷ []) admitted
      one_admitted
