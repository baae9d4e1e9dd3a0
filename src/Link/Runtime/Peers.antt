-- ===== src/Link/Runtime/Peers.antt =====
-- How a device becomes a peer and stops being one: discovery, connection, restoration, disconnection.
pub mod Admission
pub mod Departure
pub mod Orphans
use jq_ble.Prelude.{
  ℕ, Bool, true, false, not, Option, none, some, List, [], ◌∷◌, Bytes, ◌==◌, nat_eq, if◌then◌else◌,
  length,
}
use jq_ble.Core.Endpoints.{NodeId, DeviceId, BlePeerKey}
use jq_ble.Link.Gatt.{
  Psm, node_id_char_uuid, psm_char_uuid, parse_psm_value, parse_discovery_hint,
  hint_matches_node_id, gatt_endpoint,
}
use jq_ble.Link.Host.{Host, Platform, DiscoveredPeerHint, PeerIdentityState, hint, resolved}
use jq_ble.Link.Runtime.State.{Task, BleDevice, peer_key}
use jq_ble.Link.Runtime.Ingress.{emit_link_observed}
use jq_ble.Link.Runtime.Channels.{
  install_gatt_session, install_l2cap_session, emit_faulted_links_for_device,
  drop_l2cap_channels_for_node, drop_sessions_of_device,
}

pub data DisconnectCause : Type 0 where
  adapter_off gatt133 link_loss local_close remote_close timeout : DisconnectCause
  unknown : ℕ → DisconnectCause

abbrev node_id_of : Option Bytes → Option NodeId
node_id_of none = none
node_id_of (some bytes) = if length bytes == 32 then some (record { bytes = bytes }) else none

abbrev psm_of : Option Bytes → Option Psm
psm_of none = none
psm_of (some bytes) = parse_psm_value bytes

module _ {W D C X : Type 0} (h : Host W D C X) where
  -- session.rs.
  unfoldable pub resolve_remote_node_id : DeviceId → W → Option NodeId × W
  resolve_remote_node_id device_id w =
      let (bytes, w') = h.read_characteristic device_id node_id_char_uuid w in
      (node_id_of bytes, w')

  unfoldable pub resolve_remote_psm : DeviceId → W → Option Psm × W
  resolve_remote_psm device_id w =
      let (bytes, w') = h.read_characteristic device_id psm_char_uuid w in (psm_of bytes, w')

  -- l2cap.rs.
  unfoldable pub write_l2cap_identity : C → NodeId → W → Bool × W
  write_l2cap_identity channel local_node_id w =
      let (written, w') = h.write_all channel local_node_id.bytes w in
      if written then h.flush channel w' else (false, w')

  abbrev array_of : Option Bytes → Option NodeId
  array_of none = none
  array_of (some bytes) = some (record { bytes = bytes })

  unfoldable pub read_l2cap_identity : C → W → Option NodeId × W
  read_l2cap_identity channel w =
      let (bytes, w') = h.read_exact channel 32 w in (array_of bytes, w')

  unfoldable pub refresh_gatt_cache : DeviceId → W → W
  refresh_gatt_cache device_id w = elim h.platform [
    | Platform.android ↦ h.refresh device_id w
    | _ ↦ w
  ]

  -- The chain of conditions before an L2CAP session: the next state, and the open channel if all hold.
  unfoldable pub open_l2cap : DeviceId → NodeId → W → Option C × W
  open_l2cap device_id local_node_id w =
      let (psm, w1) = resolve_remote_psm device_id w in
      elim psm [
        | none ↦ (none, w1)
        | some number ↦
            let (opened, w2) = h.open_l2cap_channel device_id number w1 in
            elim opened [
              | none ↦ (none, w2)
              | some channel ↦
                  let (written, w3) = write_l2cap_identity channel local_node_id w2 in
                  (if written then some channel else none, w3)
            ]
      ]

  -- Up to the L2CAP upgrade.
  unfoldable pub install_gatt_peer : Task W D X → BlePeerKey → NodeId → DeviceId → Task W D X
  install_gatt_peer t key node_id device_id =
      let t1 = record t { peers = h.resolve t.peers key node_id } in
      let t2 = install_gatt_session h t1 node_id device_id in
      emit_link_observed h t2 node_id (gatt_endpoint device_id)

  unfoldable pub install_resolved_peer : Task W D X → BlePeerKey → NodeId → DeviceId → Task W D X
  unfolding install_gatt_peer
  install_resolved_peer t key node_id device_id =
      let t1 = install_gatt_peer t key node_id device_id in
      let (opened, w) = open_l2cap device_id t1.local_node_id t1.world in
      let t2 = record t1 { world = w } in
      elim opened [
        | none ↦ t2
        | some channel ↦ install_l2cap_session h t2 node_id device_id channel
      ]

  unfoldable pub claim_taken : Task W D X → BlePeerKey → (Task W D X → Task W D X) → Task W D X
  claim_taken t key body =
      let (taken, w) = h.try_claim key t.world in
      let t1 = record t { world = w } in
      let t2 = body t1 in if taken then record t2 { world = h.release_claim key t2.world } else t1

  -- A claim around `body`, released when it goes out of scope.
  unfoldable pub claimed : Task W D X → BlePeerKey → (Task W D X → Task W D X) → Task W D X
  unfolding claim_taken
  claimed t key body = if h.is_claimed key t.world then t else claim_taken t key body

  unfoldable pub handle_device_discovered : Task W D X → BleDevice → Task W D X
  unfolding claimed
  handle_device_discovered t device = elim (parse_discovery_hint device.services) [
    | none ↦ t
    | some prefix ↦
        let key = peer_key device.id in
        let found : DiscoveredPeerHint = record {
          device_id = device.id;
          node_id_prefix = prefix;
          advertised_gatt = true;
          advertised_l2cap = false;
        } in
        claimed (record t { peers = h.upsert_hint t.peers key found }) key
          (λ t1. record t1 { world = h.connect device.id t1.world })
  ]

  -- After `connect`: the identity is read, and is the admission gate.
  unfoldable pub restore_device : BleDevice → Task W D X → Task W D X
  restore_device device t =
      let (node_id, w) = resolve_remote_node_id device.id (h.connect device.id t.world) in
      let t1 = record t { world = w } in
      elim node_id [
        | none ↦ record t1 { world = refresh_gatt_cache device.id t1.world }
        | some n ↦ install_resolved_peer t1 (peer_key device.id) n device.id
      ]

  unfoldable pub handle_restored_device : Task W D X → BleDevice → Task W D X
  handle_restored_device t device = elim (parse_discovery_hint device.services) [
    | some prefix ↦ handle_device_discovered t device
    | none ↦ claimed t (peer_key device.id) (restore_device device)
  ]

  unfoldable pub rehydrate_from : Task W D X → List BleDevice → Task W D X
  rehydrate_from t [] = t
  rehydrate_from t (device ∷ rest) = rehydrate_from (handle_restored_device t device) rest

  unfoldable pub rehydrate_restored_state : Task W D X → Task W D X
  rehydrate_restored_state t = rehydrate_from t t.restored_state.central_devices

  -- A connected device whose identity was read, by what the directory knows of it.
  unfoldable pub admit_known :
      Task W D X → DeviceId → NodeId → Option PeerIdentityState → Task W D X
  admit_known t device_id node_id none = t
  admit_known t device_id node_id (some (resolved n)) = t
  admit_known t device_id node_id (some (hint found)) =
      let key = peer_key device_id in
      if not (hint_matches_node_id found.node_id_prefix node_id)
      then record t {
        world = h.disconnect device_id t.world;
        peers = (h.remove_peer t.peers key).1;
      }
      else install_resolved_peer t key node_id device_id

  unfoldable pub handle_device_connected : Task W D X → DeviceId → Task W D X
  unfolding admit_known
  handle_device_connected t device_id =
      let (node_id, w) = resolve_remote_node_id device_id t.world in
      let t1 = record t { world = w } in
      elim node_id [
        | none ↦ record t1 { world = refresh_gatt_cache device_id t1.world }
        | some n ↦ admit_known t1 device_id n (h.identity_state t1.peers (peer_key device_id))
      ]

  unfoldable pub handle_disconnect_recovery : Task W D X → DeviceId → DisconnectCause → Task W D X
  handle_disconnect_recovery t device_id gatt133 = record t {
    world = refresh_gatt_cache device_id t.world;
  }
  handle_disconnect_recovery t device_id _ = t

  -- What goes with a peer that had been resolved.
  unfoldable pub fault_peer : Task W D X → DeviceId → Option PeerIdentityState → Task W D X
  fault_peer t device_id (some (resolved node_id)) =
      drop_l2cap_channels_for_node (emit_faulted_links_for_device h t node_id device_id) node_id
  fault_peer t device_id _ = t

  unfoldable pub handle_device_disconnected : Task W D X → DeviceId → DisconnectCause → Task W D X
  unfolding fault_peer
  handle_device_disconnected t device_id cause =
      let (removed, peers) = h.remove_peer t.peers (peer_key device_id) in
      let t1 = fault_peer (record t { peers = peers }) device_id removed in
      handle_disconnect_recovery (drop_sessions_of_device t1 device_id) device_id cause
