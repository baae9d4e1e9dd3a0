-- ===== src/Link/Runtime/Peers/Orphans.antt =====
-- The sessions of a node's other devices when one of its devices disconnects.
use jq_ble.Prelude.{
  ◌≡◌, refl, true, none, some, Bytes, ◌==◌, beq_refl, get, IsSorted, nat_eq, nat_order,
}
use jq_ble.Core.Endpoints.{NodeId, DeviceId, LinkEndpoint, id_eq, id_order}
use jq_ble.Link.Gatt.{device_id_from_endpoint}
use jq_ble.Link.Sessions.{BleChannelId, l2cap}
use jq_ble.Link.Host.{Host, resolved}
use jq_ble.Link.Runtime.State.{Task, ActiveL2capChannel, peer_key, egress_session_for_device}
use jq_ble.Link.Runtime.Dispatch.{dispatch_unicast_command}
use jq_ble.Link.Runtime.Dispatch.Unicast.{dispatch_unicast_command_stale}
use jq_ble.Link.Runtime.Peers.{DisconnectCause, handle_device_disconnected}
use jq_ble.Link.Runtime.Peers.Departure.{channels-handle_device_disconnected}

module _ {W D C X : Type 0} (h : Host W D C X) where
  -- When a device that was identified as a node disconnects while another device of the node keeps an
  -- L2CAP session whose channel was registered, a unicast command for the other device is then lost:
  -- it leaves the task and the radios as they are, so that the next command meets the same state.
  pub dispatch_unicast_command-handle_device_disconnected :
      (t : Task W D X) (gone other : DeviceId) (cause : DisconnectCause) (n : NodeId)
      (c : BleChannelId) (channel : ActiveL2capChannel) (endpoint : LinkEndpoint) (payload : Bytes)
      → IsSorted t.l2cap_channels
      → (h.remove_peer t.peers (peer_key gone)).0 ≡ some (resolved n)
      → get c t.l2cap_channels ≡ some channel
      → channel.node_id ≡ n
      → device_id_from_endpoint endpoint ≡ some other
      → egress_session_for_device (handle_device_disconnected h t gone cause) other
        ≡ some (l2cap other c)
      → dispatch_unicast_command h (handle_device_disconnected h t gone cause) endpoint payload
        ≡ some (handle_device_disconnected h t gone cause)
  dispatch_unicast_command-handle_device_disconnected t gone other cause n c channel endpoint
        payload sorted known registered of_node target egress =
      let after = handle_device_disconnected h t gone cause in
      let same : (channel.node_id == n) ≡ true = rw of_node (beq_refl n) in
      let dropped : get c after.l2cap_channels ≡ none =
        rw (channels-handle_device_disconnected h t gone cause n c sorted known)
          (rw registered (rw same refl)) in
      dispatch_unicast_command_stale h after endpoint other other c payload target egress dropped
