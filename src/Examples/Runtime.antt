-- ===== src/Examples/Runtime.antt =====
-- Runs of the runtime task.
use mathlib.Core.List.{Perm}
use jq_ble.Prelude.{
  ◌≡◌, ◌⊎◌, refl, List, true, false, none, some, [], ◌∷◌, arith, get, insert, nat_eq, nat_order,
  if◌then◌else◌, contains, is_some, is_utf8, option_eq,
}
use jq_ble.Core.Endpoints.{id_eq, id_order}
use jq_ble.Core.Events.{TransportIngressEvent}
use jq_ble.Link.Gatt.{device_id_from_endpoint, gatt_endpoint}
use jq_ble.Link.Gatt.Locator.{device_id_from_endpoint-endpoints}
use jq_ble.Link.Sessions.{
  gatt_central, l2cap, PeerSessions, l2cap_preferred, references_device, egress_for_device,
  notify_subscriber_device_id,
}
use jq_ble.Link.Startup.{
  powered_off, central_power_changed, peripheral_power_changed, default_startup,
}
use jq_ble.Link.Host.{Platform, resolved, hint}
use jq_ble.Link.Runtime.State.{peer_key, egress_session_for_device, resolved_node_id_for_device}
use jq_ble.Link.Runtime.Ingress.{emit_control_event, flush_from, flush_deferred_control_ingress}
use jq_ble.Link.Runtime.Ingress.Order.{
  outstanding, emit_control_event-outstanding, flush_deferred_control_ingress-outstanding,
  emit_control_event_overtakes,
}
use jq_ble.Link.Runtime.Starting.{try_startup}
use jq_ble.Link.Runtime.Starting.Progress.{IsOrdered, try_startup-IsOrdered}
use jq_ble.Link.Runtime.Dispatch.{
  dispatch_unicast_command, platform_notify_device_ids, subscriber_of,
}
use jq_ble.Link.Runtime.Dispatch.Unicast.{
  dispatch_unicast_command_total, dispatch_unicast_command_stale,
}
use jq_ble.Link.Runtime.Dispatch.Multicast.{platform_notify_device_ids-linux}
use jq_ble.Link.Runtime.Peers.{
  link_loss, handle_device_connected, handle_device_disconnected, read_l2cap_identity,
}
use jq_ble.Link.Runtime.Peers.Admission.{Admitted, get-handle_device_connected}
use jq_ble.Link.Runtime.Peers.Departure.{
  get-handle_device_disconnected, channels-handle_device_disconnected,
}
use jq_ble.Link.Runtime.Peripheral.{handle_l2cap_accept}
use jq_ble.Link.Runtime.Peripheral.Gate.{get-handle_l2cap_accept}
use jq_ble.Examples.Radio.{
  Run, radio_host, radio_log, new_task, node_one, device_a, device_b, key_a, ones,
}

-- A task whose peer has an L2CAP session on channel 1 to `device_a`, and a subscriber.
abbrev sessions_one : PeerSessions
sessions_one = record {
  state = l2cap_preferred (l2cap device_a 1) (some (gatt_central device_a));
  notify_subscribers = record { device_id = device_b } ∷ [];
}

abbrev linked : Run
linked = record (new_task 4) {
  sessions = (node_one, sessions_one) ∷ [];
  l2cap_channels = (1, record { node_id = node_one; device_id = device_a }) ∷ [];
  peers = (key_a, resolved node_one) ∷ [];
}

-- The same without the channel.
abbrev orphaned : Run
orphaned = record linked { l2cap_channels = [] }

abbrev hinted : Run
hinted = record (new_task 4) {
  peers =
      (
        key_a,
        hint (record {
          device_id = device_a;
          node_id_prefix = ones 6;
          advertised_gatt = true;
          advertised_l2cap = false;
        }),
      )
      ∷ [];
}

abbrev event_one : TransportIngressEvent (Unit {0})
event_one = TransportIngressEvent.payload_received node_one (gatt_endpoint device_a) []

abbrev event_two : TransportIngressEvent (Unit {0})
event_two = TransportIngressEvent.payload_received node_one (gatt_endpoint device_b) []

-- One event waits, and the mailbox has room.
abbrev waiting : Run
waiting = record (new_task 4) { deferred_control_ingress = event_one ∷ [] }

dispatch_unicast_command_total_example :
    (t' : Run) × (dispatch_unicast_command radio_host linked (gatt_endpoint device_a) (7 ∷ [])
      ≡ some t')
dispatch_unicast_command_total_example =
    dispatch_unicast_command_total radio_host linked (gatt_endpoint device_a) (7 ∷ [])

device_a_found : device_id_from_endpoint (gatt_endpoint device_a) ≡ some device_a
unfolding is_utf8
device_a_found = (device_id_from_endpoint-endpoints device_a refl).0

orphaned_egress : egress_session_for_device orphaned device_a ≡ some (l2cap device_a 1)
unfolding egress_session_for_device egress_for_device
orphaned_egress = refl

orphaned_channel : get 1 orphaned.l2cap_channels ≡ none
unfolding get
orphaned_channel = refl

dispatch_unicast_command_stale_example :
    dispatch_unicast_command radio_host orphaned (gatt_endpoint device_a) (7 ∷ []) ≡ some orphaned
dispatch_unicast_command_stale_example =
    dispatch_unicast_command_stale radio_host orphaned (gatt_endpoint device_a) device_a device_a 1
      (7 ∷ []) device_a_found orphaned_egress orphaned_channel

emit_control_event-outstanding_example :
    Perm
      (outstanding radio_host radio_log (emit_control_event radio_host waiting event_two))
      (event_two ∷ outstanding radio_host radio_log waiting)
emit_control_event-outstanding_example =
    emit_control_event-outstanding radio_host radio_log waiting event_two

flush_deferred_control_ingress-outstanding_example :
    outstanding radio_host radio_log (flush_deferred_control_ingress radio_host waiting)
    ≡ outstanding radio_host radio_log waiting
flush_deferred_control_ingress-outstanding_example =
    flush_deferred_control_ingress-outstanding radio_host radio_log waiting

waiting_flushed :
    (flush_deferred_control_ingress radio_host
      (emit_control_event radio_host waiting event_two)).deferred_control_ingress
    ≡ []
unfolding flush_deferred_control_ingress emit_control_event flush_from
waiting_flushed = refl

emit_control_event_overtakes_example :
    (flush_deferred_control_ingress radio_host
      (emit_control_event radio_host waiting event_two)).world.mailbox
    ≡ event_two ∷ event_one ∷ []
emit_control_event_overtakes_example =
    emit_control_event_overtakes radio_host radio_log waiting event_two refl waiting_flushed

default_startup-IsOrdered : IsOrdered default_startup
default_startup-IsOrdered = ground arith

try_startup-IsOrdered_example :
    IsOrdered (try_startup radio_host (new_task 4)).startup
    × IsOrdered (central_power_changed default_startup powered_off)
    × IsOrdered (peripheral_power_changed default_startup powered_off)
try_startup-IsOrdered_example =
    try_startup-IsOrdered radio_host (new_task 4) powered_off default_startup-IsOrdered

linked_targets :
    platform_notify_device_ids Platform.linux linked.sessions (node_one ∷ []) (device_b ∷ [])
    ≡ some (device_b ∷ [])
unfolding platform_notify_device_ids insert notify_subscriber_device_id
linked_targets = refl

platform_notify_device_ids-linux_example :
    contains (node_one ∷ []) node_one ≡ is_some (subscriber_of (get node_one linked.sessions))
platform_notify_device_ids-linux_example =
    platform_notify_device_ids-linux linked.sessions (node_one ∷ []) (device_b ∷ []) (device_b ∷ [])
      node_one (tt, tt) linked_targets

get-handle_device_connected_example :
    (get node_one (handle_device_connected radio_host hinted device_a).sessions
      ≡ get node_one hinted.sessions)
    ⊎ Admitted radio_host hinted device_a node_one
get-handle_device_connected_example =
    get-handle_device_connected radio_host hinted device_a node_one

get-handle_l2cap_accept_example :
    (get node_one (handle_l2cap_accept radio_host linked (some (device_a, tt))).sessions
      ≡ get node_one linked.sessions)
    ⊎ (((read_l2cap_identity radio_host tt linked.world).0 ≡ some node_one)
        × (resolved_node_id_for_device radio_host linked device_a ≡ some node_one))
get-handle_l2cap_accept_example = get-handle_l2cap_accept radio_host linked device_a tt node_one

get-handle_device_disconnected_example :
    get node_one (handle_device_disconnected radio_host linked device_a link_loss).sessions
    ≡ (if references_device sessions_one device_a then none else some sessions_one)
unfolding get
get-handle_device_disconnected_example =
    get-handle_device_disconnected radio_host linked device_a link_loss node_one (tt, tt)

linked_known :
    (radio_host.remove_peer linked.peers (peer_key device_a)).0 ≡ some (resolved node_one)
unfolding get
linked_known = refl

channels-handle_device_disconnected_example :
    get 1 (handle_device_disconnected radio_host linked device_a link_loss).l2cap_channels ≡ none
unfolding get
channels-handle_device_disconnected_example =
    channels-handle_device_disconnected radio_host linked device_a link_loss node_one 1 (tt, tt)
      linked_known
