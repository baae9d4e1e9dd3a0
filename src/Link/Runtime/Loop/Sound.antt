-- ===== src/Link/Runtime/Loop/Sound.antt =====
-- The invariant of the task, and the operations below the handlers.
use jq_ble.Prelude.{
  ◌≡◌, refl, sym, subst, ◌∙◌, Bool, Option, none, some, List, [], ◌∷◌, ◌==◌, nat_eq, nat_order, Map,
  get, insert, remove, retain_entries, IsSorted, get-insert, insert-IsSorted, remove-IsSorted,
  retain_entries-IsSorted, get-retain_entries, Bool-cases, Option-cases, inl, inr,
}
use jq_ble.Core.Endpoints.{NodeId, DeviceId, LinkEndpoint, id_eq, id_order}
use jq_ble.Core.Events.{TransportIngressEvent}
use jq_ble.Link.Sessions.{
  BleChannelId, PeerSessions, downgrade_l2cap, session_endpoint, endpoints_for_device,
  gatt_with_fallback,
}
use jq_ble.Link.Sessions.Invariant.{
  Operation, connect, promote, downgrade, apply, Reachable, connected, accepted, next,
}
use jq_ble.Link.Startup.{BleStartupState}
use jq_ble.Link.Host.{Host, control}
use jq_ble.Link.Runtime.State.{Task, ActiveL2capChannel}
use jq_ble.Link.Runtime.Ingress.{
  emit_control_event, emit_link_observed, emit_faulted_links, raw_ble_link_faulted_event,
  raw_ble_link_observed_event,
}
use jq_ble.Link.Runtime.Channels.{
  upsert, install_gatt_session, install_l2cap_session, close_in_sessions,
  handle_l2cap_channel_closed, emit_faulted_links_for_device,
}
use jq_ble.Link.Runtime.Starting.Progress.{IsOrdered}

-- The radio starts in order, both maps are maps, and the sessions of a peer are some that its
-- operations build.
pub record SoundParts (startup : BleStartupState) (sessions : Map NodeId PeerSessions)
    (channels : Map BleChannelId ActiveL2capChannel) : Type 0 where
  pub ordered : IsOrdered startup
  pub sessions_sorted : IsSorted sessions
  pub channels_sorted : IsSorted channels
  pub reachable : (n : NodeId) (p : PeerSessions) → get n sessions ≡ some p → Reachable p

same_some : {A : Type 0} → {o : Option A} → {a b : A} → o ≡ some a → o ≡ some b → a ≡ b
same_some e f = cc

abbrev pub IsSound : {W D X : Type 0} → Task W D X → Type 0
IsSound t = SoundParts t.startup t.sessions t.l2cap_channels

module _ {st : BleStartupState} {m : Map NodeId PeerSessions}
    {c : Map BleChannelId ActiveL2capChannel} (s : SoundParts st m c) where
  pub put-IsSound : (n : NodeId) (p : PeerSessions) → Reachable p → SoundParts st (insert n p m) c
  put-IsSound n p r = record {
    ordered = s.ordered;
    channels_sorted = s.channels_sorted;
    sessions_sorted = insert-IsSorted n p m s.sessions_sorted;
    reachable = λ j q found. elim (Bool-cases (n == j)) [
      | inl same ↦ subst Reachable (same_some (get-insert n j p m ∙ rw same refl) found) r
      | inr differ ↦ s.reachable j q (sym (get-insert n j p m ∙ rw differ refl) ∙ found)
    ];
  }

  pub upsert-IsSound :
      (n : NodeId) (o : Operation) (new : PeerSessions)
      → Reachable new
      → SoundParts st (upsert n (λ p. apply p o) new m) c
  upsert-IsSound n o new r = elim (Option-cases (get n m)) [
    | inl gone ↦ rw gone (put-IsSound n new r)
    | inr (p, found) ↦ rw found (put-IsSound n (apply p o) (next (s.reachable n p found) o))
  ]

  pub keep_channels-IsSound :
      (keep : BleChannelId → ActiveL2capChannel → Bool) → SoundParts st m (retain_entries keep c)
  keep_channels-IsSound keep = record {
    ordered = s.ordered;
    sessions_sorted = s.sessions_sorted;
    reachable = s.reachable;
    channels_sorted = retain_entries-IsSorted keep c s.channels_sorted;
  }

  keep_sessions_old :
      (keep : NodeId → PeerSessions → Bool) (n : NodeId) (p : PeerSessions)
      → get n (retain_entries keep m) ≡ some p
      → get n m ≡ some p
  keep_sessions_old keep n p found =
      let e = get-retain_entries keep n m s.sessions_sorted in
      elim (Option-cases (get n m)) [
        | inl gone ↦
            let e' : get n (retain_entries keep m) ≡ none = rw e (rw gone refl) in cc (e', found)
        | inr (q, old) ↦ elim (Bool-cases (keep n q)) [
          | inl kept ↦
              let e' : get n (retain_entries keep m) ≡ some q = rw e (rw old (rw kept refl)) in
              old ∙ sym e' ∙ found
          | inr dropped ↦
              let e' : get n (retain_entries keep m) ≡ none = rw e (rw old (rw dropped refl)) in
              cc (e', found)
        ]
      ]

  pub keep_sessions-IsSound :
      (keep : NodeId → PeerSessions → Bool) → SoundParts st (retain_entries keep m) c
  keep_sessions-IsSound keep = record {
    ordered = s.ordered;
    channels_sorted = s.channels_sorted;
    sessions_sorted = retain_entries-IsSorted keep m s.sessions_sorted;
    reachable = λ n p found. s.reachable n p (keep_sessions_old keep n p found);
  }

  pub register-IsSound :
      (k : BleChannelId) (a : ActiveL2capChannel) → SoundParts st m (insert k a c)
  register-IsSound k a = record {
    ordered = s.ordered;
    sessions_sorted = s.sessions_sorted;
    channels_sorted = insert-IsSorted k a c s.channels_sorted;
    reachable = s.reachable;
  }

  pub close-IsSound : (k : BleChannelId) → SoundParts st m (remove k c)
  close-IsSound k = record {
    ordered = s.ordered;
    sessions_sorted = s.sessions_sorted;
    channels_sorted = remove-IsSorted k c s.channels_sorted;
    reachable = s.reachable;
  }

  pub start-IsSound : (st' : BleStartupState) → IsOrdered st' → SoundParts st' m c
  start-IsSound st' o = record {
    ordered = o;
    sessions_sorted = s.sessions_sorted;
    channels_sorted = s.channels_sorted;
    reachable = s.reachable;
  }

module _ {W D C X : Type 0} (h : Host W D C X) where
  pub emit_control_event-IsSound :
      (t : Task W D X) (e : TransportIngressEvent X)
      → IsSound t
      → IsSound (emit_control_event h t e)
  unfolding emit_control_event
  emit_control_event-IsSound t e s = elim (Bool-cases (h.emit control e t.world).0) [
    | inl taken ↦ rw taken s
    | inr refused ↦ rw refused s
  ]

  pub emit_link_observed-IsSound :
      (t : Task W D X) (n : NodeId) (e : LinkEndpoint)
      → IsSound t
      → IsSound (emit_link_observed h t n e)
  unfolding emit_link_observed
  emit_link_observed-IsSound t n e s =
      emit_control_event-IsSound t (raw_ble_link_observed_event h n e) s

  emit_faulted_links-IsSound :
      (t : Task W D X) (n : NodeId) (es : List LinkEndpoint)
      → IsSound t
      → IsSound (emit_faulted_links h t n es)
  unfolding emit_faulted_links
  emit_faulted_links-IsSound t n [] s = s
  emit_faulted_links-IsSound t n (e ∷ es) s =
      let event = raw_ble_link_faulted_event h n e in
      emit_faulted_links-IsSound (emit_control_event h t event) n es
        (emit_control_event-IsSound t event s)

  pub emit_faulted_links_for_device-IsSound :
      (t : Task W D X) (n : NodeId) (d : DeviceId)
      → IsSound t
      → IsSound (emit_faulted_links_for_device h t n d)
  unfolding emit_faulted_links_for_device
  emit_faulted_links_for_device-IsSound t n d s = elim (Option-cases (get n t.sessions)) [
    | inl gone ↦ rw (gone, emit_faulted_links_for_device) s
    | inr (p, found) ↦
        rw (found, emit_faulted_links_for_device)
          (emit_faulted_links-IsSound t n (endpoints_for_device p d) s)
  ]

  pub install_gatt_session-IsSound :
      (t : Task W D X) (n : NodeId) (d : DeviceId)
      → IsSound t
      → IsSound (install_gatt_session h t n d)
  unfolding install_gatt_session gatt_with_fallback
  install_gatt_session-IsSound t n d s = upsert-IsSound s n (connect d) _ (connected d)

  pub install_l2cap_session-IsSound :
      (t : Task W D X) (n : NodeId) (d : DeviceId) (channel : C)
      → IsSound t
      → IsSound (install_l2cap_session h t n d channel)
  unfolding install_l2cap_session
  install_l2cap_session-IsSound t n d channel s = emit_link_observed-IsSound _ n _ (
      upsert-IsSound (register-IsSound s _ _) n (promote d t.next_channel_id) _
        (accepted d t.next_channel_id))

  close_in_sessions-IsSound :
      (t : Task W D X) (n : NodeId) (k : BleChannelId) (p : PeerSessions)
      → Reachable p
      → IsSound t
      → IsSound (close_in_sessions h t n k p)
  unfolding close_in_sessions
  close_in_sessions-IsSound t n k p r s =
      let s' = put-IsSound s n (downgrade_l2cap p k).0 (next r (downgrade k)) in
      elim (Option-cases (downgrade_l2cap p k).1) [
        | inl gone ↦ rw (gone, close_in_sessions) s'
        | inr (fallback, e) ↦
            rw (e, close_in_sessions)
              (emit_link_observed-IsSound _ n (session_endpoint fallback) s')
      ]

  pub handle_l2cap_channel_closed-IsSound :
      (t : Task W D X) (k : BleChannelId) → IsSound t → IsSound (handle_l2cap_channel_closed h t k)
  unfolding handle_l2cap_channel_closed
  handle_l2cap_channel_closed-IsSound t k s = elim (Option-cases (get k t.l2cap_channels)) [
    | inl gone ↦ rw (gone, handle_l2cap_channel_closed) s
    | inr (channel, found) ↦ elim (Option-cases (get channel.node_id t.sessions)) [
      | inl none_left ↦
          rw (found, handle_l2cap_channel_closed)
            (rw (none_left, handle_l2cap_channel_closed) (close-IsSound s k))
      | inr (p, of_node) ↦
          rw (found, handle_l2cap_channel_closed)
            (rw (of_node, handle_l2cap_channel_closed)
              (close_in_sessions-IsSound _ channel.node_id k p
                (s.reachable channel.node_id p of_node) (close-IsSound s k)))
    ]
  ]
