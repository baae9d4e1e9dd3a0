-- ===== src/Link/Runtime/Loop/Requests.antt =====
-- The invariant of the task under the handlers of the peripheral role and of the L2CAP channels.
use jq_ble.Prelude.{
  Bool, true, false, Option, none, some, ◌==◌, nat_eq, option_eq, nat_order, get, Bytes, Bool-cases,
  Option-cases, inl, inr,
}
use jq_ble.Core.Endpoints.{NodeId, DeviceId, id_eq, id_order, endpoint_eq}
use jq_ble.Link.Gatt.{Uuid, p2c_char_uuid, c2p_char_uuid}
use jq_ble.Link.Sessions.{
  BleNotifySubscriber, PeerSessions, gatt_notify_fanout, remove_gatt_subscription,
}
use jq_ble.Link.Sessions.Invariant.{subscribe, unsubscribe, subscribed, next, Reachable}
use jq_ble.Link.Startup.{power_state, peripheral_power_changed}
use jq_ble.Link.Host.{Host}
use jq_ble.Link.Runtime.State.{Task, resolved_node_id_for_device}
use jq_ble.Link.Runtime.Starting.Progress.{power_changed-IsOrdered}
use jq_ble.Link.Runtime.Peers.{read_l2cap_identity}
use jq_ble.Link.Runtime.Peripheral.{
  PeripheralRequest, read, write, PeripheralStateEvent, subscription_changed, adapter_state_changed,
  L2capRuntimeEvent, frame_received, channel_closed, handle_c2p_write, handle_peripheral_request,
  handle_p2c_subscription, unsubscribe_in, handle_p2c_unsubscription, handle_peripheral_state_event,
  handle_l2cap_accept, handle_l2cap_runtime_event, handle_characteristic_notification,
}
use jq_ble.Link.Runtime.Ingress.{emit_payload}
use jq_ble.Link.Runtime.Loop.Sound.{
  IsSound, put-IsSound, upsert-IsSound, start-IsSound, emit_control_event-IsSound,
  install_l2cap_session-IsSound, handle_l2cap_channel_closed-IsSound,
}
use jq_ble.Link.Runtime.Loop.Handlers.{try_startup-IsSound}

module _ {W D C X : Type 0} (h : Host W D C X) where
  handle_c2p_write-IsSound :
      (t : Task W D X) (d : DeviceId) (value : Bytes) (r : Bool)
      → IsSound t
      → IsSound (handle_c2p_write h t d value r).1
  unfolding handle_c2p_write emit_payload
  handle_c2p_write-IsSound t d value r s = elim (Option-cases (resolved_node_id_for_device h t d)) [
    | inl gone ↦ rw (gone, handle_c2p_write) s
    | inr (n, found) ↦ rw (found, handle_c2p_write) s
  ]

  pub handle_peripheral_request-IsSound :
      (t : Task W D X) (r : PeripheralRequest)
      → IsSound t
      → IsSound (handle_peripheral_request h t r).1
  unfolding handle_peripheral_request
  handle_peripheral_request-IsSound t (read uuid) s = s
  handle_peripheral_request-IsSound t (write d uuid value r) s =
      elim (Bool-cases (uuid == c2p_char_uuid)) [
        | inl c2p ↦ rw c2p (handle_c2p_write-IsSound t d value r s)
        | inr other ↦ rw other s
      ]

  handle_p2c_subscription-IsSound :
      (t : Task W D X) (d : DeviceId) → IsSound t → IsSound (handle_p2c_subscription h t d)
  unfolding handle_p2c_subscription
  handle_p2c_subscription-IsSound t d s = elim (Option-cases (resolved_node_id_for_device h t d)) [
    | inl gone ↦ rw (gone, handle_p2c_subscription) s
    | inr (n, found) ↦
        let b : BleNotifySubscriber = record { device_id = d } in
        rw (found, handle_p2c_subscription)
          (emit_control_event-IsSound h _ _
            (upsert-IsSound s n (subscribe b) (gatt_notify_fanout b) (subscribed b)))
  ]

  unsubscribe_in-IsSound :
      (t : Task W D X) (d : DeviceId) (n : NodeId) (p : PeerSessions)
      → Reachable p
      → IsSound t
      → IsSound (unsubscribe_in h t d n p)
  unfolding unsubscribe_in
  unsubscribe_in-IsSound t d n p r s =
      let s1 = put-IsSound s n (remove_gatt_subscription p d).0 (next r (unsubscribe d)) in
      elim (Bool-cases (remove_gatt_subscription p d).1) [
        | inl removed ↦ rw removed (emit_control_event-IsSound h _ _ s1)
        | inr absent ↦ rw absent s1
      ]

  handle_p2c_unsubscription-IsSound :
      (t : Task W D X) (d : DeviceId) → IsSound t → IsSound (handle_p2c_unsubscription h t d)
  unfolding handle_p2c_unsubscription
  handle_p2c_unsubscription-IsSound t d s =
      elim (Option-cases (resolved_node_id_for_device h t d)) [
        | inl gone ↦ rw (gone, handle_p2c_unsubscription) s
        | inr (n, found) ↦ elim (Option-cases (get n t.sessions)) [
          | inl none_left ↦
              rw (found, handle_p2c_unsubscription) (rw (none_left, handle_p2c_unsubscription) s)
          | inr (p, of_node) ↦
              rw (found, handle_p2c_unsubscription)
                (rw (of_node, handle_p2c_unsubscription)
                  (unsubscribe_in-IsSound t d n p (s.reachable n p of_node) s))
        ]
      ]

  pub handle_peripheral_state_event-IsSound :
      (t : Task W D X) (e : PeripheralStateEvent)
      → IsSound t
      → IsSound (handle_peripheral_state_event h t e)
  unfolding handle_peripheral_state_event
  handle_peripheral_state_event-IsSound t (subscription_changed d uuid true) s =
      elim (Bool-cases (uuid == p2c_char_uuid)) [
        | inl p2c ↦ rw p2c (handle_p2c_subscription-IsSound t d s)
        | inr other ↦ rw other s
      ]
  handle_peripheral_state_event-IsSound t (subscription_changed d uuid false) s =
      elim (Bool-cases (uuid == p2c_char_uuid)) [
        | inl p2c ↦ rw p2c (handle_p2c_unsubscription-IsSound t d s)
        | inr other ↦ rw other s
      ]
  handle_peripheral_state_event-IsSound t (adapter_state_changed powered) s =
      let changed =
        start-IsSound s (peripheral_power_changed t.startup (power_state powered))
          (power_changed-IsOrdered t.startup (power_state powered) s.ordered).1 in
      elim (Bool-cases powered) [
        | inl on ↦ rw on (try_startup-IsSound h _ (rw on at changed))
        | inr off ↦ rw off (rw off at changed)
      ]

  pub handle_l2cap_accept-IsSound :
      (t : Task W D X) (result : Option (DeviceId × C))
      → IsSound t
      → IsSound (handle_l2cap_accept h t result)
  unfolding handle_l2cap_accept
  handle_l2cap_accept-IsSound t none s = s
  handle_l2cap_accept-IsSound t (some (d, channel)) s =
      let identity = read_l2cap_identity h channel t.world in
      let t1 = record t { world = identity.1 } in
      elim (Option-cases identity.0) [
        | inl gone ↦ rw (gone, handle_l2cap_accept) s
        | inr (n, found) ↦ elim (Bool-cases (resolved_node_id_for_device h t1 d == some n)) [
          | inl same ↦
              rw (found, handle_l2cap_accept)
                (rw same (install_l2cap_session-IsSound h t1 n d channel s))
          | inr differ ↦ rw (found, handle_l2cap_accept) (rw differ s)
        ]
      ]

  pub handle_l2cap_runtime_event-IsSound :
      (t : Task W D X) (e : L2capRuntimeEvent)
      → IsSound t
      → IsSound (handle_l2cap_runtime_event h t e)
  unfolding handle_l2cap_runtime_event emit_payload
  handle_l2cap_runtime_event-IsSound t (frame_received k payload) s =
      elim (Option-cases (get k t.l2cap_channels)) [
        | inl gone ↦ rw (gone, handle_l2cap_runtime_event) s
        | inr (channel, found) ↦ rw (found, handle_l2cap_runtime_event) s
      ]
  handle_l2cap_runtime_event-IsSound t (channel_closed k) s =
      handle_l2cap_channel_closed-IsSound h t k s

  pub handle_characteristic_notification-IsSound :
      (t : Task W D X) (d : DeviceId) (uuid : Uuid) (value : Bytes)
      → IsSound t
      → IsSound (handle_characteristic_notification h t d uuid value)
  unfolding handle_characteristic_notification emit_payload
  handle_characteristic_notification-IsSound t d uuid value s =
      elim (Bool-cases (uuid == p2c_char_uuid)) [
        | inr other ↦ rw other s
        | inl p2c ↦ elim (Option-cases (resolved_node_id_for_device h t d)) [
          | inl gone ↦ rw p2c (rw (gone, handle_characteristic_notification) s)
          | inr (n, found) ↦ rw p2c (rw (found, handle_characteristic_notification) s)
        ]
      ]
