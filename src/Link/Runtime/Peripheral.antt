-- ===== src/Link/Runtime/Peripheral.antt =====
-- Requests and events of the peripheral role, and of the L2CAP channels.
pub mod Gate
use jq_ble.Prelude.{
  Bool, Option, none, some, Bytes, ◌==◌, nat_eq, nat_order, option_eq, get, insert, not,
  if◌then◌else◌, to_le_bytes, ◌&&◌,
}
use jq_ble.Core.Endpoints.{NodeId, DeviceId, id_eq, id_order}
use jq_ble.Link.Gatt.{
  Uuid, node_id_char_uuid, psm_char_uuid, c2p_char_uuid, p2c_char_uuid, gatt_endpoint,
  l2cap_endpoint, gatt_notify_fanout_endpoint,
}
use jq_ble.Link.Sessions.{
  BleChannelId, BleNotifySubscriber, PeerSessions, install_gatt_subscription,
  remove_gatt_subscription, gatt_notify_fanout,
}
use jq_ble.Link.Startup.{power_state, peripheral_power_changed}
use jq_ble.Link.Host.{Host}
use jq_ble.Link.Runtime.State.{Task, resolved_node_id_for_device}
use jq_ble.Link.Runtime.Ingress.{
  emit_control_event, emit_payload, raw_ble_link_observed_event, raw_ble_link_faulted_event,
}
use jq_ble.Link.Runtime.Channels.{upsert, install_l2cap_session, handle_l2cap_channel_closed}
use jq_ble.Link.Runtime.Peers.{read_l2cap_identity}
use jq_ble.Link.Runtime.Starting.{try_startup}

-- What a responder is told.
pub data Reply : Type 0 where
  respond : Bytes → Reply
  success error : Reply

-- `has_responder` says that a write request carries a responder.
pub data PeripheralRequest : Type 0 where
  read : Uuid → PeripheralRequest
  write : DeviceId → Uuid → Bytes → Bool → PeripheralRequest

pub data PeripheralStateEvent : Type 0 where
  subscription_changed : DeviceId → Uuid → Bool → PeripheralStateEvent
  adapter_state_changed : Bool → PeripheralStateEvent

pub data L2capRuntimeEvent : Type 0 where
  frame_received : BleChannelId → Bytes → L2capRuntimeEvent
  channel_closed : BleChannelId → L2capRuntimeEvent

abbrev replied : Bool → Reply → Option Reply
replied has_responder reply = if has_responder then some reply else none

module _ {W D C X : Type 0} (h : Host W D C X) where
  unfoldable pub handle_c2p_write : Task W D X → DeviceId → Bytes → Bool → Option Reply × Task W D X
  handle_c2p_write t client_id value has_responder =
      elim (resolved_node_id_for_device h t client_id) [
        | some node_id ↦ (
          replied has_responder success,
          emit_payload h t node_id (gatt_endpoint client_id) value,
        )
        | none ↦ (replied has_responder error, t)
      ]

  unfoldable pub answer_read : Task W D X → Uuid → Reply
  answer_read t char_uuid =
      if char_uuid == node_id_char_uuid
      then respond t.local_node_id.bytes
      else if char_uuid == psm_char_uuid
      then elim t.local_psm [ none ↦ error | some psm ↦ respond (to_le_bytes 2 psm) ]
      else error

  unfoldable pub handle_peripheral_request :
      Task W D X → PeripheralRequest → Option Reply × Task W D X
  unfolding handle_c2p_write answer_read
  handle_peripheral_request t (read char_uuid) = (some (answer_read t char_uuid), t)
  handle_peripheral_request t (write client_id char_uuid value has_responder) =
      if char_uuid == c2p_char_uuid
      then handle_c2p_write t client_id value has_responder
      else (replied has_responder error, t)

  unfoldable pub handle_p2c_subscription : Task W D X → DeviceId → Task W D X
  handle_p2c_subscription t client_id = elim (resolved_node_id_for_device h t client_id) [
    | none ↦ t
    | some node_id ↦
        let subscriber : BleNotifySubscriber = record { device_id = client_id } in
        emit_control_event h
          (record t {
            sessions =
                upsert node_id (λ p. install_gatt_subscription p subscriber)
                  (gatt_notify_fanout subscriber) t.sessions;
          })
          (raw_ble_link_observed_event h node_id gatt_notify_fanout_endpoint)
  ]

  unfoldable pub unsubscribe_in : Task W D X → DeviceId → NodeId → PeerSessions → Task W D X
  unsubscribe_in t client_id node_id p =
      let (p', removed) = remove_gatt_subscription p client_id in
      let t1 = record t { sessions = insert node_id p' t.sessions } in
      if removed
      then emit_control_event h t1
          (raw_ble_link_faulted_event h node_id gatt_notify_fanout_endpoint)
      else t1

  unfoldable pub handle_p2c_unsubscription : Task W D X → DeviceId → Task W D X
  unfolding unsubscribe_in
  handle_p2c_unsubscription t client_id = elim (resolved_node_id_for_device h t client_id) [
    | none ↦ t
    | some node_id ↦ elim (get node_id t.sessions) [
      | none ↦ t
      | some p ↦ unsubscribe_in t client_id node_id p
    ]
  ]

  unfoldable pub handle_peripheral_state_event : Task W D X → PeripheralStateEvent → Task W D X
  handle_peripheral_state_event t (subscription_changed client_id char_uuid subscribed) =
      if char_uuid == p2c_char_uuid && subscribed
      then handle_p2c_subscription t client_id
      else if char_uuid == p2c_char_uuid && not subscribed
      then handle_p2c_unsubscription t client_id
      else t
  handle_peripheral_state_event t (adapter_state_changed powered) =
      let t1 = record t { startup = peripheral_power_changed t.startup (power_state powered) } in
      if powered then try_startup h t1 else t1

  -- `none` is an accept that failed.
  unfoldable pub handle_l2cap_accept : Task W D X → Option (DeviceId × C) → Task W D X
  handle_l2cap_accept t none = t
  handle_l2cap_accept t (some (device_id, channel)) =
      let (identity, w) = read_l2cap_identity h channel t.world in
      let t1 = record t { world = w } in
      elim identity [
        | none ↦ t1
        | some remote_node_id ↦
            if not (resolved_node_id_for_device h t1 device_id == some remote_node_id)
            then t1
            else install_l2cap_session h t1 remote_node_id device_id channel
      ]

  unfoldable pub handle_l2cap_runtime_event : Task W D X → L2capRuntimeEvent → Task W D X
  handle_l2cap_runtime_event t (frame_received channel_id payload) =
      elim (get channel_id t.l2cap_channels) [
        | none ↦ t
        | some channel ↦ emit_payload h t channel.node_id (l2cap_endpoint channel.device_id) payload
      ]
  handle_l2cap_runtime_event t (channel_closed channel_id) =
      handle_l2cap_channel_closed h t channel_id

  unfoldable pub handle_characteristic_notification :
      Task W D X → DeviceId → Uuid → Bytes → Task W D X
  handle_characteristic_notification t device_id char_uuid value =
      if not (char_uuid == p2c_char_uuid)
      then t
      else elim (resolved_node_id_for_device h t device_id) [
        | none ↦ t
        | some node_id ↦ emit_payload h t node_id (gatt_endpoint device_id) value
      ]
