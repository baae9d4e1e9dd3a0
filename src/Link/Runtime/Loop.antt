-- ===== src/Link/Runtime/Loop.antt =====
-- The event loop `run`, one turn at a time. A turn flushes the deferred control events and serves
-- one arm of the `select!`; which arm is ready is up to the environment.
pub mod Sound
pub mod Handlers
pub mod Arrivals
pub mod Requests
pub mod Invariant
use jq_ble.Prelude.{
  ◌≡◌, Bool, true, false, Option, none, some, List, Bytes, is_empty, not, if◌then◌else◌,
}
use jq_ble.Core.Endpoints.{DeviceId}
use jq_ble.Link.Gatt.{Uuid}
use jq_ble.Link.Startup.{power_state, central_power_changed, retry_due}
use jq_ble.Link.Host.{Host}
use jq_ble.Link.Runtime.State.{Task, BleDevice}
use jq_ble.Link.Runtime.Ingress.{flush_deferred_control_ingress}
use jq_ble.Link.Runtime.Dispatch.{BleOutboundCommand, dispatch_outbound_batch}
use jq_ble.Link.Runtime.Peers.{
  DisconnectCause, rehydrate_restored_state, handle_device_discovered, handle_device_connected,
  handle_device_disconnected,
}
use jq_ble.Link.Runtime.Starting.{try_startup}
use jq_ble.Link.Runtime.Peripheral.{
  PeripheralRequest, PeripheralStateEvent, L2capRuntimeEvent, handle_peripheral_request,
  handle_peripheral_state_event, handle_l2cap_accept, handle_l2cap_runtime_event,
  handle_characteristic_notification,
}

pub data BleDriverCommand : Type 0 where
  dispatch : List BleOutboundCommand → BleDriverCommand
  shutdown : BleDriverCommand

pub data CentralEvent : Type 0 where
  adapter_state_changed : Bool → CentralEvent
  device_discovered : BleDevice → CentralEvent
  device_connected : DeviceId → CentralEvent
  device_disconnected : DeviceId → DisconnectCause → CentralEvent
  characteristic_notification : DeviceId → Uuid → Bytes → CentralEvent

-- The arms of the `select!`. An accept of `none` failed; `ended` is a request or accept stream
-- without a further item, and `closed` the `else` arm.
pub data Arm (C : Type 0) : Type 0 where
  command : BleDriverCommand → Arm C
  central : CentralEvent → Arm C
  peripheral : PeripheralStateEvent → Arm C
  request : PeripheralRequest → Arm C
  accept : Option (DeviceId × C) → Arm C
  channel : L2capRuntimeEvent → Arm C
  retry_deferred : Arm C
  retry_startup : Arm C
  ended : Arm C
  closed : Arm C

module _ {W D C X : Type 0} (h : Host W D C X) where
  unfoldable pub handle_central_event : Task W D X → CentralEvent → Task W D X
  handle_central_event t (adapter_state_changed powered) =
      let t1 = record t { startup = central_power_changed t.startup (power_state powered) } in
      if powered then try_startup h t1 else t1
  handle_central_event t (device_discovered device) = handle_device_discovered h t device
  handle_central_event t (device_connected device_id) = handle_device_connected h t device_id
  handle_central_event t (device_disconnected device_id cause) =
      handle_device_disconnected h t device_id cause
  handle_central_event t (characteristic_notification device_id char_uuid value) =
      handle_characteristic_notification h t device_id char_uuid value

  -- The next state, and whether the loop breaks; `none` if the fuel of a unicast loop ran out.
  unfoldable pub handle_command : Task W D X → BleDriverCommand → Option (Task W D X × Bool)
  handle_command t (dispatch batch) = elim (dispatch_outbound_batch h t batch) [
    | none ↦ none
    | some t' ↦ some (t', false)
  ]
  handle_command t shutdown = some (t, true)

  -- The arms that wait for a condition are dormant without it.
  unfoldable pub is_enabled : Task W D X → Arm C → Bool
  is_enabled t (accept result) = t.is_listening
  is_enabled t retry_deferred = not (is_empty t.deferred_control_ingress)
  is_enabled t retry_startup = retry_due t.startup
  is_enabled t _ = true

  unfoldable pub serve : Task W D X → Arm C → Option (Task W D X × Bool)
  unfolding handle_command
  serve t (command c) = handle_command t c
  serve t (central event) = some (handle_central_event t event, false)
  serve t (peripheral event) = some (handle_peripheral_state_event h t event, false)
  serve t (request r) = some ((handle_peripheral_request h t r).1, false)
  serve t (accept result) = some (handle_l2cap_accept h t result, false)
  serve t (channel event) = some (handle_l2cap_runtime_event h t event, false)
  serve t retry_deferred = some (t, false)
  serve t retry_startup = some (try_startup h t, false)
  serve t ended = some (t, false)
  serve t closed = some (t, true)

  unfoldable pub start : Task W D X → Task W D X
  start t = try_startup h (rehydrate_restored_state h t)

  -- The states at the head of the loop.
  pub data Running (t0 : Task W D X) : Task W D X → Type 0 where
    started : Running t0 (start t0)
    turn :
        {t t' : Task W D X}
        → Running t0 t
        → (arm : Arm C) → is_enabled (flush_deferred_control_ingress h t) arm ≡ true
        → serve (flush_deferred_control_ingress h t) arm ≡ some (t', false)
        → Running t0 t'
    -- Between two turns the radios and queues move on by themselves.
    waited : {t : Task W D X} → Running t0 t → (w : W) → Running t0 (record t { world = w })
