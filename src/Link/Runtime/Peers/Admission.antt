-- ===== src/Link/Runtime/Peers/Admission.antt =====
-- Which peers are admitted: the nodes whose sessions a new connection can change.
use jq_ble.Prelude.{
  ◌≡◌, refl, sym, ap, ◌∙◌, true, Option, none, some, ◌==◌, nat_eq, nat_order, option_eq, Map, get,
  get-insert, Bool-cases, Option-cases, inl, inr, ◌⊎◌, arith,
}
use jq_ble.Core.Endpoints.{NodeId, DeviceId, BlePeerKey, id_eq, id_order, id_beq_iff}
use jq_ble.Link.Gatt.{hint_matches_node_id}
use jq_ble.Link.Sessions.{PeerSessions}
use jq_ble.Link.Host.{Host, DiscoveredPeerHint, PeerIdentityState, hint, resolved}
use jq_ble.Link.Runtime.State.{Task, peer_key}
use jq_ble.Link.Runtime.Ingress.{emit_control_event, emit_link_observed}
use jq_ble.Link.Runtime.Channels.{upsert, install_gatt_session, install_l2cap_session}
use jq_ble.Link.Runtime.Peers.{
  resolve_remote_node_id, open_l2cap, install_gatt_peer, install_resolved_peer, admit_known,
  handle_device_connected,
}

get-upsert :
    (n m : NodeId) (f : PeerSessions → PeerSessions) (p : PeerSessions)
    (s : Map NodeId PeerSessions)
    → (get m (upsert n f p s) ≡ get m s) ⊎ (n ≡ m)
get-upsert n m f p s = elim (Bool-cases (n == m)) [
  | inl same ↦ inr ((id_beq_iff n m).0 same)
  | inr differ ↦ inl (get-insert n m _ s ∙ rw differ refl)
]

module _ {W D C X : Type 0} (h : Host W D C X) where
  sessions-emit_link_observed :
      (t : Task W D X) (n : NodeId) (e : _) → (emit_link_observed h t n e).sessions ≡ t.sessions
  unfolding emit_link_observed emit_control_event
  sessions-emit_link_observed t n e = ground arith

  pub get-install_l2cap_session :
      (t : Task W D X) (n m : NodeId) (d : DeviceId) (c : C)
      → (get m (install_l2cap_session h t n d c).sessions ≡ get m t.sessions) ⊎ (n ≡ m)
  unfolding install_l2cap_session
  get-install_l2cap_session t n m d c = elim (get-upsert n m _ _ t.sessions) [
    | inl kept ↦ inl (ap (get m) (sessions-emit_link_observed _ n _) ∙ kept)
    | inr same ↦ inr same
  ]

  get-install_gatt_peer :
      (t : Task W D X) (k : BlePeerKey) (n m : NodeId) (d : DeviceId)
      → (get m (install_gatt_peer h t k n d).sessions ≡ get m t.sessions) ⊎ (n ≡ m)
  unfolding install_gatt_peer install_gatt_session
  get-install_gatt_peer t k n m d = elim (get-upsert n m _ _ t.sessions) [
    | inl kept ↦ inl (ap (get m) (sessions-emit_link_observed _ n _) ∙ kept)
    | inr same ↦ inr same
  ]

  get-install_resolved_peer :
      (t : Task W D X) (k : BlePeerKey) (n m : NodeId) (d : DeviceId)
      → (get m (install_resolved_peer h t k n d).sessions ≡ get m t.sessions) ⊎ (n ≡ m)
  unfolding install_resolved_peer
  get-install_resolved_peer t k n m d =
      let t1 = install_gatt_peer h t k n d in
      let opened = open_l2cap h d t1.local_node_id t1.world in
      elim (get-install_gatt_peer t k n m d) [
        | inr same ↦ inr same
        | inl kept ↦ elim (Option-cases opened.0) [
          | inl e ↦ inl (rw (e, install_resolved_peer) kept)
          | inr (c, e) ↦ elim (get-install_l2cap_session (record t1 { world = opened.1 }) n m d c) [
            | inl kept2 ↦ inl (rw (e, install_resolved_peer) (kept2 ∙ kept))
            | inr same ↦ inr same
          ]
        ]
      ]

  -- What a node must have shown before a connection of a device changes its sessions: its identity,
  -- read from the device, which the device had announced by the prefix in its advertisement.
  pub record Admitted (t : Task W D X) (d : DeviceId) (n : NodeId) : Type 0 where
    pub found : DiscoveredPeerHint
    pub identified : (resolve_remote_node_id h d t.world).0 ≡ some n
    pub announced : h.identity_state t.peers (peer_key d) ≡ some (hint found)
    pub matches : hint_matches_node_id found.node_id_prefix n ≡ true

  get-admit_known :
      (t : Task W D X) (d : DeviceId) (n m : NodeId) (s : Option PeerIdentityState)
      → (get m (admit_known h t d n s).sessions ≡ get m t.sessions)
        ⊎ ((f : DiscoveredPeerHint) × (s ≡ some (hint f))
            × (hint_matches_node_id f.node_id_prefix n ≡ true)
            × (n ≡ m))
  unfolding admit_known
  get-admit_known t d n m none = inl refl
  get-admit_known t d n m (some (resolved r)) = inl refl
  get-admit_known t d n m (some (hint f)) =
      elim (Bool-cases (hint_matches_node_id f.node_id_prefix n)) [
        | inr differ ↦ inl (rw differ refl)
        | inl match ↦ elim (get-install_resolved_peer t (peer_key d) n m d) [
          | inl kept ↦ inl (rw match kept)
          | inr same ↦ inr (f, refl, match, same)
        ]
      ]

  -- A connection leaves the sessions of every node as they were, but for a node that the device both
  -- announced by the prefix of its advertisement and then proved to be, by the identity read from it.
  -- In particular a device whose identity contradicts its advertisement gets no session.
  pub get-handle_device_connected :
      (t : Task W D X) (d : DeviceId) (m : NodeId)
      → (get m (handle_device_connected h t d).sessions ≡ get m t.sessions) ⊎ Admitted t d m
  unfolding handle_device_connected
  get-handle_device_connected t d m =
      let read = resolve_remote_node_id h d t.world in
      elim (Option-cases read.0) [
        | inl e ↦ inl (rw (e, handle_device_connected) refl)
        | inr (n, e) ↦
            elim (get-admit_known (record t { world = read.1 }) d n m
              (h.identity_state t.peers (peer_key d))) [
                | inl kept ↦ inl (rw (e, handle_device_connected) kept)
                | inr (f, known, match, same) ↦ inr (record {
                  found = f;
                  identified = e ∙ ap some same;
                  announced = known;
                  matches =
                      ap (λ (x : NodeId). hint_matches_node_id f.node_id_prefix x) (sym same)
                      ∙ match;
                })
              ]
      ]
