-- ===== src/Examples/Turns.antt =====
-- Runs of the runtime task that take several steps.
use jq_ble.Link.Runtime.Channels.{
  drop_sessions_of_device, drop_l2cap_channels_for_node, emit_faulted_links_for_device,
}
use jq_ble.Prelude.{
  retain_entries, IsSorted, ◌≡◌, refl, true, none, some, [], ◌∷◌, get, nat_eq, nat_order, is_utf8,
  option_eq,
}
use jq_ble.Core.Endpoints.{id_eq, id_order}
use jq_ble.Link.Gatt.{device_id_from_endpoint, gatt_endpoint}
use jq_ble.Link.Gatt.Locator.{device_id_from_endpoint-endpoints}
use jq_ble.Link.Sessions.{
  endpoints_for_device, subscriber_endpoints, session_endpoints, iter_sessions, l2cap,
  l2cap_preferred, references_device, egress_for_device,
}
use jq_ble.Link.Host.{resolved}
use jq_ble.Link.Runtime.State.{ok, new_with_restored_state, peer_key, egress_session_for_device}
use jq_ble.Link.Runtime.Ingress.{emit_faulted_links, flush_deferred_control_ingress}
use jq_ble.Link.Runtime.Starting.Progress.{IsOrdered}
use jq_ble.Link.Runtime.Dispatch.{dispatch_unicast_command}
use jq_ble.Link.Runtime.Peers.{handle_disconnect_recovery, link_loss, handle_device_disconnected}
use jq_ble.Link.Runtime.Peers.Orphans.{dispatch_unicast_command-handle_device_disconnected}
use jq_ble.Link.Runtime.Peripheral.{adapter_state_changed, handle_peripheral_state_event}
use jq_ble.Link.Runtime.Loop.{peripheral, serve, is_enabled, start, Running, started, turn}
use jq_ble.Link.Runtime.Loop.Handlers.{WhenSome}
use jq_ble.Link.Runtime.Loop.Invariant.{Running-IsWellFormed}
use jq_ble.Link.Sessions.Invariant.{IsWellFormed}
use jq_ble.Examples.Radio.{Run, radio_host, new_task, node_one, device_a, device_b, key_a}

abbrev fresh : Run
fresh = new_task 4

fresh_created :
    new_with_restored_state fresh.local_node_id fresh.world [] fresh.config fresh.restored_state
    ≡ ok fresh
unfolding new_with_restored_state
fresh_created = refl

-- The start, and then a turn on the power of the adapter.
abbrev switched_on : Run
switched_on =
    handle_peripheral_state_event radio_host
      (flush_deferred_control_ingress radio_host (start radio_host fresh))
      (adapter_state_changed true)

switched_on-Running : Running radio_host fresh switched_on
unfolding is_enabled serve
switched_on-Running = turn started (peripheral (adapter_state_changed true)) refl refl

Running-IsWellFormed_example :
    IsOrdered switched_on.startup
    × IsSorted switched_on.sessions
    × IsSorted switched_on.l2cap_channels
    × WhenSome IsWellFormed (get node_one switched_on.sessions)
Running-IsWellFormed_example =
    Running-IsWellFormed radio_host fresh.local_node_id fresh.world [] fresh.config
      fresh.restored_state fresh switched_on node_one fresh_created switched_on-Running

-- One node behind two devices, with an L2CAP session to the second.
abbrev two_devices : Run
two_devices = record (new_task 4) {
  sessions =
      (
        node_one,
        record { state = l2cap_preferred (l2cap device_b 1) none; notify_subscribers = [] },
      )
      ∷ [];
  l2cap_channels = (1, record { node_id = node_one; device_id = device_b }) ∷ [];
  peers = (key_a, resolved node_one) ∷ (peer_key device_b, resolved node_one) ∷ [];
}

device_b_found : device_id_from_endpoint (gatt_endpoint device_b) ≡ some device_b
unfolding is_utf8
device_b_found = (device_id_from_endpoint-endpoints device_b refl).0

two_devices_known :
    (radio_host.remove_peer two_devices.peers (peer_key device_a)).0 ≡ some (resolved node_one)
unfolding get
two_devices_known = refl

two_devices_channel :
    get 1 two_devices.l2cap_channels ≡ some (record { node_id = node_one; device_id = device_b })
unfolding get
two_devices_channel = refl

device_b_egress :
    egress_session_for_device
      (handle_device_disconnected radio_host two_devices device_a link_loss)
      device_b
    ≡ some (l2cap device_b 1)
unfolding handle_device_disconnected egress_session_for_device get egress_for_device
    handle_disconnect_recovery drop_sessions_of_device retain_entries drop_l2cap_channels_for_node
    emit_faulted_links_for_device emit_faulted_links endpoints_for_device subscriber_endpoints
    session_endpoints iter_sessions references_device
device_b_egress = refl

dispatch_unicast_command-handle_device_disconnected_example :
    dispatch_unicast_command radio_host
      (handle_device_disconnected radio_host two_devices device_a link_loss)
      (gatt_endpoint device_b)
      (7 ∷ [])
    ≡ some (handle_device_disconnected radio_host two_devices device_a link_loss)
dispatch_unicast_command-handle_device_disconnected_example =
    dispatch_unicast_command-handle_device_disconnected radio_host two_devices device_a device_b
      link_loss node_one 1 (record { node_id = node_one; device_id = device_b })
      (gatt_endpoint device_b) (7 ∷ []) (tt, tt) two_devices_known two_devices_channel refl
      device_b_found device_b_egress
