-- ===== src/Examples/Profile.antt =====
-- Runs of the codecs and of the peer sessions.
use jq_ble.Prelude.{
  ◌≡◌, ◌↔◌, ◌<◌, ◌++◌, refl, true, false, none, some, [], ◌∷◌, arith, IsArray, All, IsByte, take,
  and_then, is_utf8, any, from_le_bytes, to_be_bytes, ◌==◌, nat_eq, if◌then◌else◌,
}
use jq_ble.Core.Endpoints.{NodeId, id_eq}
use jq_ble.Link.Gatt.{
  psm_char_uuid, identity_service_uuid, discovery_service_uuid, parse_discovery_hint, hint_of_uuid,
  node_id_prefix, hint_matches_node_id, gatt_l2cap_service, gatt_fallback_service, parse_psm_value,
  gatt_endpoint, l2cap_endpoint, gatt_notify_fanout_endpoint, device_id_from_endpoint,
}
use jq_ble.Link.Gatt.Hint.{parse_discovery_hint-discovery_service_uuid}
use jq_ble.Link.Gatt.Locator.{
  device_id_from_endpoint-endpoints, value_of, parse_psm_value-gatt_l2cap_service,
  parse_psm_value-range,
}
use jq_ble.Link.Sessions.{
  gatt_central, l2cap, BleNotifySubscriber, PeerSessions, gatt_only, gatt_only_sessions, is_l2cap,
  iter_sessions, downgrade_l2cap, promote_l2cap, preferred_egress, install_gatt_subscription,
  remove_gatt_subscription,
}
use jq_ble.Link.Sessions.Invariant.{
  IsWellFormed, apply, promote, subscribe, connected, next, Reachable, Reachable-IsWellFormed,
  subscribes,
}
use jq_ble.Link.Sessions.Transitions.{downgrade_l2cap-promote_l2cap_restores, subscriptions_exact}
use jq_ble.Examples.Radio.{node_one, device_a, device_b}

node_one_bytes : All IsByte node_one.bytes
node_one_bytes = omega arith

node_one-IsArray : IsArray 32 node_one.bytes
node_one-IsArray = record { size = refl; bounded = node_one_bytes }

no_hint : All (λ u. hint_of_uuid u ≡ none) (identity_service_uuid ∷ [])
unfolding hint_of_uuid to_be_bytes
no_hint = (refl, tt)

parse_discovery_hint-discovery_service_uuid_example :
    (parse_discovery_hint ((identity_service_uuid ∷ []) ++ discovery_service_uuid node_one ∷ [])
      ≡ some (node_id_prefix node_one))
    × ((m : NodeId)
        → (hint_matches_node_id (node_id_prefix node_one) m ≡ true)
          ↔ (take 6 node_one.bytes ≡ take 6 m.bytes))
parse_discovery_hint-discovery_service_uuid_example =
    parse_discovery_hint-discovery_service_uuid node_one (identity_service_uuid ∷ []) []
      node_one-IsArray no_hint

device_a_text : is_utf8 device_a.bytes ≡ true
unfolding is_utf8
device_a_text = refl

device_id_from_endpoint-endpoints_example :
    (device_id_from_endpoint (gatt_endpoint device_a) ≡ some device_a)
    × (device_id_from_endpoint (l2cap_endpoint device_a) ≡ some device_a)
    × (device_id_from_endpoint gatt_notify_fanout_endpoint ≡ none)
device_id_from_endpoint-endpoints_example = device_id_from_endpoint-endpoints device_a device_a_text

parse_psm_value-gatt_l2cap_service_example :
    (and_then
        (value_of psm_char_uuid (gatt_l2cap_service node_one 193).characteristics)
        parse_psm_value
      ≡ some 193)
    × (value_of psm_char_uuid (gatt_fallback_service node_one).characteristics ≡ none)
parse_psm_value-gatt_l2cap_service_example =
    parse_psm_value-gatt_l2cap_service node_one 193 (omega arith) (omega arith)

psm_bytes : All IsByte (193 ∷ 0 ∷ [])
psm_bytes = omega arith

psm_read : parse_psm_value (193 ∷ 0 ∷ []) ≡ some 193
unfolding parse_psm_value from_le_bytes
psm_read = refl

parse_psm_value-range_example : (0 < 193) × (193 < 65536)
parse_psm_value-range_example = parse_psm_value-range (193 ∷ 0 ∷ []) 193 psm_bytes psm_read

abbrev subscriber_b : BleNotifySubscriber
subscriber_b = record { device_id = device_b }

abbrev upgraded : PeerSessions
upgraded =
    apply (apply (gatt_only_sessions (gatt_central device_a)) (subscribe subscriber_b))
      (promote device_a 1)

upgraded-Reachable : Reachable upgraded
upgraded-Reachable = next (next (connected device_a) (subscribe subscriber_b)) (promote device_a 1)

Reachable-IsWellFormed_example : IsWellFormed upgraded
Reachable-IsWellFormed_example = Reachable-IsWellFormed upgraded-Reachable

abbrev plain : PeerSessions
plain = record {
  state = gatt_only (gatt_central device_a) (gatt_central device_a);
  notify_subscribers = subscriber_b ∷ [];
}

plain_has_no_l2cap : any is_l2cap (iter_sessions plain) ≡ false
unfolding iter_sessions
plain_has_no_l2cap = refl

downgrade_l2cap-promote_l2cap_restores_example :
    downgrade_l2cap (promote_l2cap plain (l2cap device_a 7)) 7 ≡ (plain, preferred_egress plain)
downgrade_l2cap-promote_l2cap_restores_example =
    downgrade_l2cap-promote_l2cap_restores plain device_a 7 (refl, refl) plain_has_no_l2cap

subscriptions_exact_example :
    (subscribes device_b (install_gatt_subscription plain subscriber_b).notify_subscribers
      ≡ (if device_b == device_b then true else subscribes device_b plain.notify_subscribers))
    × (subscribes device_b (remove_gatt_subscription plain device_a).0.notify_subscribers
        ≡ (if device_a == device_b then false else subscribes device_b plain.notify_subscribers))
    × ((remove_gatt_subscription plain device_a).1 ≡ subscribes device_a plain.notify_subscribers)
subscriptions_exact_example = subscriptions_exact plain subscriber_b device_a device_b
