-- ===== src/Link/Runtime/Loop/Arrivals.antt =====
-- The invariant of the task under the handlers of central events.
use jq_ble.Prelude.{
  Option, none, some, List, [], ◌∷◌, nat_eq, option_eq, nat_order, Bool-cases, Option-cases, inl,
  inr,
}
use jq_ble.Core.Endpoints.{NodeId, DeviceId, BlePeerKey, id_eq, id_order, endpoint_eq}
use jq_ble.Link.Gatt.{parse_discovery_hint, hint_matches_node_id}
use jq_ble.Link.Host.{Host, hint, resolved, PeerIdentityState}
use jq_ble.Link.Runtime.State.{Task, BleDevice, peer_key}
use jq_ble.Link.Runtime.Channels.{drop_l2cap_channels_for_node, drop_sessions_of_device}
use jq_ble.Link.Runtime.Peers.{
  DisconnectCause, gatt133, resolve_remote_node_id, open_l2cap, install_gatt_peer,
  install_resolved_peer, claim_taken, claimed, handle_device_discovered, restore_device,
  handle_restored_device, rehydrate_from, admit_known, handle_device_connected,
  handle_disconnect_recovery, fault_peer, handle_device_disconnected,
}
use jq_ble.Link.Runtime.Loop.Sound.{
  IsSound, keep_channels-IsSound, keep_sessions-IsSound, emit_link_observed-IsSound,
  emit_faulted_links_for_device-IsSound, install_gatt_session-IsSound,
  install_l2cap_session-IsSound,
}

module _ {W D C X : Type 0} (h : Host W D C X) where
  install_gatt_peer-IsSound :
      (t : Task W D X) (k : BlePeerKey) (n : NodeId) (d : DeviceId)
      → IsSound t
      → IsSound (install_gatt_peer h t k n d)
  unfolding install_gatt_peer
  install_gatt_peer-IsSound t k n d s =
      emit_link_observed-IsSound h _ n _
        (install_gatt_session-IsSound h (record t { peers = h.resolve t.peers k n }) n d s)

  install_resolved_peer-IsSound :
      (t : Task W D X) (k : BlePeerKey) (n : NodeId) (d : DeviceId)
      → IsSound t
      → IsSound (install_resolved_peer h t k n d)
  unfolding install_resolved_peer
  install_resolved_peer-IsSound t k n d s =
      let t1 = install_gatt_peer h t k n d in
      let s1 = install_gatt_peer-IsSound t k n d s in
      let opened = open_l2cap h d t1.local_node_id t1.world in
      elim (Option-cases opened.0) [
        | inl gone ↦ rw (gone, install_resolved_peer) s1
        | inr (channel, found) ↦
            rw (found, install_resolved_peer)
              (install_l2cap_session-IsSound h (record t1 { world = opened.1 }) n d channel s1)
      ]

  claimed-IsSound :
      (t : Task W D X) (k : BlePeerKey) (body : Task W D X → Task W D X)
      → ((u : Task W D X) → IsSound u → IsSound (body u))
      → IsSound t
      → IsSound (claimed h t k body)
  unfolding claimed claim_taken
  claimed-IsSound t k body keeps s =
      let after = keeps (record t { world = (h.try_claim k t.world).1 }) s in
      elim (Bool-cases (h.is_claimed k t.world)) [
        | inl busy ↦ rw busy s
        | inr free ↦ elim (Bool-cases (h.try_claim k t.world).0) [
          | inl taken ↦ rw free (rw taken after)
          | inr refused ↦ rw free (rw refused s)
        ]
      ]

  pub handle_device_discovered-IsSound :
      (t : Task W D X) (device : BleDevice)
      → IsSound t
      → IsSound (handle_device_discovered h t device)
  unfolding handle_device_discovered
  handle_device_discovered-IsSound t device s =
      elim (Option-cases (parse_discovery_hint device.services)) [
        | inl gone ↦ rw (gone, handle_device_discovered) s
        | inr (prefix, found) ↦
            rw (found, handle_device_discovered)
              (claimed-IsSound _ _ (λ t1. record t1 { world = h.connect device.id t1.world })
                (λ u s1. s1) s)
      ]

  restore_device-IsSound :
      (device : BleDevice) (t : Task W D X) → IsSound t → IsSound (restore_device h device t)
  unfolding restore_device
  restore_device-IsSound device t s =
      let read_id = resolve_remote_node_id h device.id (h.connect device.id t.world) in
      elim (Option-cases read_id.0) [
        | inl gone ↦ rw (gone, restore_device) s
        | inr (n, found) ↦
            rw (found, restore_device)
              (install_resolved_peer-IsSound (record t { world = read_id.1 }) _ n device.id s)
      ]

  handle_restored_device-IsSound :
      (t : Task W D X) (device : BleDevice)
      → IsSound t
      → IsSound (handle_restored_device h t device)
  unfolding handle_restored_device
  handle_restored_device-IsSound t device s =
      elim (Option-cases (parse_discovery_hint device.services)) [
        | inl gone ↦
            rw (gone, handle_restored_device)
              (claimed-IsSound t _ _ (restore_device-IsSound device) s)
        | inr (prefix, found) ↦
            rw (found, handle_restored_device) (handle_device_discovered-IsSound t device s)
      ]

  pub rehydrate_from-IsSound :
      (t : Task W D X) (devices : List BleDevice) → IsSound t → IsSound (rehydrate_from h t devices)
  unfolding rehydrate_from
  rehydrate_from-IsSound t [] s = s
  rehydrate_from-IsSound t (device ∷ rest) s =
      rehydrate_from-IsSound (handle_restored_device h t device) rest
        (handle_restored_device-IsSound t device s)

  admit_known-IsSound :
      (t : Task W D X) (d : DeviceId) (n : NodeId) (known : Option PeerIdentityState)
      → IsSound t
      → IsSound (admit_known h t d n known)
  unfolding admit_known
  admit_known-IsSound t d n none s = s
  admit_known-IsSound t d n (some (resolved r)) s = s
  admit_known-IsSound t d n (some (hint f)) s =
      elim (Bool-cases (hint_matches_node_id f.node_id_prefix n)) [
        | inl match ↦ rw match (install_resolved_peer-IsSound t _ n d s)
        | inr differ ↦ rw differ s
      ]

  pub handle_device_connected-IsSound :
      (t : Task W D X) (d : DeviceId) → IsSound t → IsSound (handle_device_connected h t d)
  unfolding handle_device_connected
  handle_device_connected-IsSound t d s =
      let read_id = resolve_remote_node_id h d t.world in
      elim (Option-cases read_id.0) [
        | inl gone ↦ rw (gone, handle_device_connected) s
        | inr (n, found) ↦
            rw (found, handle_device_connected)
              (admit_known-IsSound (record t { world = read_id.1 }) d n _ s)
      ]

  handle_disconnect_recovery-IsSound :
      (t : Task W D X) (d : DeviceId) (cause : DisconnectCause)
      → IsSound t
      → IsSound (handle_disconnect_recovery h t d cause)
  unfolding handle_disconnect_recovery
  handle_disconnect_recovery-IsSound t d gatt133 s = s
  handle_disconnect_recovery-IsSound t d _ s = s

  fault_peer-IsSound :
      (t : Task W D X) (d : DeviceId) (known : Option PeerIdentityState)
      → IsSound t
      → IsSound (fault_peer h t d known)
  unfolding fault_peer drop_l2cap_channels_for_node
  fault_peer-IsSound t d none s = s
  fault_peer-IsSound t d (some (hint f)) s = s
  fault_peer-IsSound t d (some (resolved n)) s =
      keep_channels-IsSound (emit_faulted_links_for_device-IsSound h t n d s) _

  pub handle_device_disconnected-IsSound :
      (t : Task W D X) (d : DeviceId) (cause : DisconnectCause)
      → IsSound t
      → IsSound (handle_device_disconnected h t d cause)
  unfolding handle_device_disconnected drop_sessions_of_device
  handle_device_disconnected-IsSound t d cause s =
      let removed = h.remove_peer t.peers (peer_key d) in
      let s1 = fault_peer-IsSound (record t { peers = removed.1 }) d removed.0 s in
      handle_disconnect_recovery-IsSound _ d cause (keep_sessions-IsSound s1 _)
