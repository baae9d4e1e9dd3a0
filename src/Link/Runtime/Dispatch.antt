-- ===== src/Link/Runtime/Dispatch.antt =====
-- Outbound commands: `dispatch_outbound_batch` and below, with notify.rs.
pub mod Unicast
pub mod Multicast
pub mod Fanout
use jq_ble.Prelude.{
  ℕ, zero, suc, true, false, not, Option, none, some, List, [], ◌∷◌, Bytes, ◌==◌, nat_eq, nat_order,
  option_eq, list_eq, Map, get, insert, keys, is_some, is_empty, if◌then◌else◌, length, ◌+◌,
}
use jq_ble.Core.Endpoints.{NodeId, DeviceId, LinkEndpoint, id_eq, id_order, endpoint_eq}
use jq_ble.Core.Events.{TransportDeliveryIntent}
use jq_ble.Link.Gatt.{
  c2p_char_uuid, p2c_char_uuid, device_id_from_endpoint, gatt_notify_fanout_endpoint,
}
use jq_ble.Link.Sessions.{
  BleChannelId, BleSession, gatt_central, l2cap, PeerSessions, notify_subscriber_device_id,
}
use jq_ble.Link.Host.{Host, Platform}
use jq_ble.Link.Runtime.State.{Task, egress_session_for_device}
use jq_ble.Link.Runtime.Channels.{handle_l2cap_channel_closed}

pub record BleOutboundCommand : Type 0 where
  pub intent : TransportDeliveryIntent
  pub payload : Bytes

-- `iter().collect::<BTreeSet<_>>()`: the members in ascending order.
abbrev pub to_set : List NodeId → Map NodeId (Unit {0})
to_set [] = []
to_set (n ∷ ns) = insert n tt (to_set ns)

-- The nodes whose sessions have a notify subscriber.
abbrev pub subscribed_nodes : Map NodeId PeerSessions → List NodeId
subscribed_nodes [] = []
subscribed_nodes ((node_id, p) ∷ m) =
    let rest = subscribed_nodes m in
    if is_some (notify_subscriber_device_id p) then node_id ∷ rest else rest

abbrev first_only : List DeviceId → Option (List DeviceId)
first_only [] = none
first_only (device_id ∷ rest) = some (device_id ∷ [])

-- Both `#[cfg]` variants.
unfoldable pub platform_notify_device_ids :
    Platform → Map NodeId PeerSessions → List NodeId → List DeviceId → Option (List DeviceId)
platform_notify_device_ids Platform.linux sessions receivers device_ids =
    if keys (to_set receivers) == keys (to_set (subscribed_nodes sessions))
    then first_only device_ids
    else none
platform_notify_device_ids _ sessions receivers device_ids = some device_ids

abbrev pub subscriber_of : Option PeerSessions → Option DeviceId
subscriber_of none = none
subscriber_of (some p) = notify_subscriber_device_id p

abbrev cons_both : Option DeviceId → Option (List DeviceId) → Option (List DeviceId)
cons_both none rest = none
cons_both (some device_id) none = none
cons_both (some device_id) (some rest) = some (device_id ∷ rest)

-- The loop of `notify_subscriber_device_ids`.
unfoldable pub collect_device_ids : Map NodeId PeerSessions → List NodeId → Option (List DeviceId)
collect_device_ids sessions [] = some []
collect_device_ids sessions (receiver ∷ rest) =
    cons_both (subscriber_of (get receiver sessions)) (collect_device_ids sessions rest)

unfoldable pub notify_subscriber_device_ids :
    Map NodeId PeerSessions → List NodeId → Option (List DeviceId)
notify_subscriber_device_ids sessions receivers =
    if is_empty receivers then none else collect_device_ids sessions receivers

module _ {W D X : Type 0} where
  -- Fuel for every channel that can fail, for the retry of a failed one, and for the last session.
  abbrev pub unicast_fuel : Task W D X → ℕ
  unicast_fuel t = length t.l2cap_channels + 2

module _ {W D C X : Type 0} (h : Host W D C X) where
  -- `Some(channel_id)`, a failed L2CAP channel, or `None`.
  unfoldable pub send_via_session :
      Task W D X → BleSession → Bytes → Option BleChannelId × Task W D X
  send_via_session t (gatt_central device_id) payload =
      (none, record t { world = h.write_characteristic device_id c2p_char_uuid payload t.world })
  send_via_session t (l2cap device_id channel_id) payload = elim (get channel_id t.l2cap_channels) [
    | none ↦ (some channel_id, t)
    | some channel ↦
        let (sent, w) = h.outbound_send channel_id payload t.world in
        (if sent then none else some channel_id, record t { world = w })
  ]

  -- The `loop` of `dispatch_unicast_command`, on fuel; `none` means that the fuel ran out.
  unfoldable pub unicast_loop :
      ℕ → Task W D X → DeviceId → Bytes → Option BleChannelId → Option (Task W D X)
  unicast_loop zero t device_id payload downgraded = none
  unicast_loop (suc fuel) t device_id payload downgraded =
      elim (egress_session_for_device t device_id) [
        | none ↦ some t
        | some session ↦ elim (send_via_session t session payload).0 [
          | none ↦ some (send_via_session t session payload).1
          | some channel_id ↦ elim (downgraded == some channel_id) [
            | true ↦ some (send_via_session t session payload).1
            | false ↦
                unicast_loop fuel
                  (handle_l2cap_channel_closed h (send_via_session t session payload).1 channel_id)
                  device_id payload (some channel_id)
          ]
        ]
      ]

  unfoldable pub dispatch_unicast_command : Task W D X → LinkEndpoint → Bytes → Option (Task W D X)
  unfolding unicast_loop
  dispatch_unicast_command t endpoint payload = elim (device_id_from_endpoint endpoint) [
    | none ↦ some t
    | some device_id ↦ unicast_loop (unicast_fuel t) t device_id payload none
  ]

  unfoldable pub notify_all : W → List DeviceId → Bytes → W
  notify_all w [] payload = w
  notify_all w (device_id ∷ rest) payload =
      notify_all (h.notify_characteristic device_id p2c_char_uuid payload w) rest payload

  unfoldable pub dispatch_multicast_command :
      Task W D X → LinkEndpoint → List NodeId → Bytes → Task W D X
  dispatch_multicast_command t endpoint receivers payload =
      if not (endpoint == gatt_notify_fanout_endpoint)
      then t
      else elim (notify_subscriber_device_ids t.sessions receivers) [
        | none ↦ t
        | some device_ids ↦
            elim (platform_notify_device_ids h.platform t.sessions receivers device_ids) [
              | none ↦ t
              | some targets ↦ record t { world = notify_all t.world targets payload }
            ]
      ]

  unfoldable pub dispatch_outbound_command : Task W D X → BleOutboundCommand → Option (Task W D X)
  dispatch_outbound_command t command = elim command.intent [
    | TransportDeliveryIntent.unicast endpoint ↦ dispatch_unicast_command t endpoint command.payload
    | TransportDeliveryIntent.multicast endpoint group_id receivers ↦
        some (dispatch_multicast_command t endpoint receivers command.payload)
    | TransportDeliveryIntent.broadcast endpoint ↦ some t
  ]

  unfoldable pub dispatch_outbound_batch :
      Task W D X → List BleOutboundCommand → Option (Task W D X)
  dispatch_outbound_batch t [] = some t
  dispatch_outbound_batch t (command ∷ rest) = elim (dispatch_outbound_command t command) [
    | none ↦ none
    | some t' ↦ dispatch_outbound_batch t' rest
  ]
