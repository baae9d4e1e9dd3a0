-- ===== src/Link/Runtime/Peers/Departure.antt =====
-- What is left of a device that disconnected.
use jq_ble.Prelude.{
  ◌≡◌, refl, ap, ◌∙◌, not, Option, none, some, List, [], ◌∷◌, arith, ◌==◌, nat_eq, nat_order, Map,
  get, IsSorted, retain_entries, get-retain_entries, Option-cases, inl, inr, if◌then◌else◌,
}
use jq_ble.Core.Endpoints.{NodeId, DeviceId, LinkEndpoint, id_eq, id_order}
use jq_ble.Link.Sessions.{BleChannelId, PeerSessions, references_device, endpoints_for_device}
use jq_ble.Link.Host.{Host, PeerIdentityState, hint, resolved}
use jq_ble.Link.Runtime.State.{Task, ActiveL2capChannel, peer_key}
use jq_ble.Link.Runtime.Ingress.{emit_control_event, emit_faulted_links, raw_ble_link_faulted_event}
use jq_ble.Link.Runtime.Channels.{
  emit_faulted_links_for_device, drop_l2cap_channels_for_node, drop_sessions_of_device,
}
use jq_ble.Link.Runtime.Peers.{
  DisconnectCause, gatt133, fault_peer, handle_disconnect_recovery, handle_device_disconnected,
}

module _ {W D C X : Type 0} (h : Host W D C X) where
  kept-emit_faulted_links :
      (t : Task W D X) (n : NodeId) (es : List LinkEndpoint)
      → ((emit_faulted_links h t n es).sessions ≡ t.sessions)
        × ((emit_faulted_links h t n es).l2cap_channels ≡ t.l2cap_channels)
  unfolding emit_faulted_links emit_control_event
  kept-emit_faulted_links t n [] = (refl, refl)
  kept-emit_faulted_links t n (e ∷ es) =
      let t1 = emit_control_event h t (raw_ble_link_faulted_event h n e) in
      let (s, c) = kept-emit_faulted_links t1 n es in (s ∙ ground arith, c ∙ ground arith)

  kept-emit_faulted_links_for_device :
      (t : Task W D X) (n : NodeId) (d : DeviceId)
      → ((emit_faulted_links_for_device h t n d).sessions ≡ t.sessions)
        × ((emit_faulted_links_for_device h t n d).l2cap_channels ≡ t.l2cap_channels)
  unfolding emit_faulted_links_for_device
  kept-emit_faulted_links_for_device t n d = elim (Option-cases (get n t.sessions)) [
    | inl e ↦ rw (e, emit_faulted_links_for_device) (refl, refl)
    | inr (p, e) ↦
        rw (e, emit_faulted_links_for_device)
          (kept-emit_faulted_links t n (endpoints_for_device p d))
  ]

  sessions-fault_peer :
      (t : Task W D X) (d : DeviceId) (s : Option PeerIdentityState)
      → (fault_peer h t d s).sessions ≡ t.sessions
  unfolding fault_peer drop_l2cap_channels_for_node
  sessions-fault_peer t d none = refl
  sessions-fault_peer t d (some (hint f)) = refl
  sessions-fault_peer t d (some (resolved n)) = (kept-emit_faulted_links_for_device t n d).0

  kept-handle_disconnect_recovery :
      (t : Task W D X) (d : DeviceId) (cause : DisconnectCause)
      → ((handle_disconnect_recovery h t d cause).sessions ≡ t.sessions)
        × ((handle_disconnect_recovery h t d cause).l2cap_channels ≡ t.l2cap_channels)
  unfolding handle_disconnect_recovery
  kept-handle_disconnect_recovery t d gatt133 = (refl, refl)
  kept-handle_disconnect_recovery t d _ = (refl, refl)

  -- After a disconnection exactly the sessions that refer to the device are gone, whatever the cause
  -- and whether or not the device had been identified.
  pub get-handle_device_disconnected :
      (t : Task W D X) (d : DeviceId) (cause : DisconnectCause) (n : NodeId)
      → IsSorted t.sessions
      → get n (handle_device_disconnected h t d cause).sessions ≡ elim (get n t.sessions) [
        | none ↦ none
        | some p ↦ if references_device p d then none else some p
      ]
  unfolding handle_device_disconnected drop_sessions_of_device
  get-handle_device_disconnected t d cause n sorted =
      let removed = h.remove_peer t.peers (peer_key d) in
      let t1 = fault_peer h (record t { peers = removed.1 }) d removed.0 in
      let kept = sessions-fault_peer (record t { peers = removed.1 }) d removed.0 in
      ap (get n) (kept-handle_disconnect_recovery (drop_sessions_of_device t1 d) d cause).0
      ∙ ap
          (λ (m : Map NodeId PeerSessions).
            get n (retain_entries (λ _ p. not (references_device p d)) m))
          kept
      ∙ get-retain_entries (λ _ p. not (references_device p d)) n t.sessions sorted
      ∙ ground arith

  -- When a device that was identified as a node disconnects, exactly the L2CAP channels of the node
  -- are dropped, those to its other devices included.
  pub channels-handle_device_disconnected :
      (t : Task W D X) (d : DeviceId) (cause : DisconnectCause) (n : NodeId) (c : BleChannelId)
      → IsSorted t.l2cap_channels
      → (h.remove_peer t.peers (peer_key d)).0 ≡ some (resolved n)
      → get c (handle_device_disconnected h t d cause).l2cap_channels
        ≡ elim (get c t.l2cap_channels) [
          | none ↦ none
          | some channel ↦ if channel.node_id == n then none else some channel
        ]
  unfolding handle_device_disconnected drop_sessions_of_device fault_peer
      drop_l2cap_channels_for_node
  channels-handle_device_disconnected t d cause n c sorted known =
      let removed = h.remove_peer t.peers (peer_key d) in
      let t0 = record t { peers = removed.1 } in
      let t1 = fault_peer h t0 d removed.0 in
      let other = λ (_ : BleChannelId) (channel : ActiveL2capChannel). not (channel.node_id == n) in
      let dropped : t1.l2cap_channels ≡ retain_entries other t.l2cap_channels =
        rw known (ap (retain_entries other) (kept-emit_faulted_links_for_device t0 n d).1) in
      ap (get c) (kept-handle_disconnect_recovery (drop_sessions_of_device t1 d) d cause).1
      ∙ ap (get c) dropped
      ∙ get-retain_entries other c t.l2cap_channels sorted
      ∙ ground arith
