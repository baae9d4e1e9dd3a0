-- ===== src/Link/Runtime/Dispatch/Unicast.antt =====
-- The rounds of the unicast loop.
use jq_ble.Prelude.{
  ℕ, zero, suc, ◌+◌, ◌<◌, ◌≤◌, ◌≡◌, refl, ap, ◌∙◌, true, false, Option, none, some, [], ◌∷◌, arith,
  Bytes, ◌==◌, nat_eq, nat_order, nat_beq_iff, option_eq, Map, get, remove, length, inl, inr,
  Option-cases, Bool-cases,
}
use jq_ble.Core.Endpoints.{NodeId, DeviceId, LinkEndpoint, id_eq, id_order}
use jq_ble.Link.Gatt.{device_id_from_endpoint}
use jq_ble.Link.Sessions.{
  BleChannelId, BleSession, gatt_central, l2cap, PeerSessions, downgrade_l2cap, session_endpoint,
}
use jq_ble.Link.Host.{Host}
use jq_ble.Link.Runtime.State.{Task, ActiveL2capChannel, egress_session_for_device}
use jq_ble.Link.Runtime.Ingress.{emit_link_observed}
use jq_ble.Link.Runtime.Channels.{handle_l2cap_channel_closed, close_in_sessions}
use jq_ble.Link.Runtime.Dispatch.{
  send_via_session, unicast_loop, unicast_fuel, dispatch_unicast_command,
}

module _ {V : Type 0} where
  length-remove-le : (c : ℕ) (m : Map ℕ V) → length (remove c m) ≤ length m
  unfolding remove
  length-remove-le c [] = omega arith
  length-remove-le c ((j, v) ∷ m) = ground (arith, length-remove-le c m)

  length-remove-lt :
      (c : ℕ) (m : Map ℕ V) (v : V) → get c m ≡ some v → length (remove c m) < length m
  unfolding remove get
  length-remove-lt c [] v e = cc
  length-remove-lt c ((j, w) ∷ m) v e = ground (arith, length-remove-le c m, length-remove-lt c m v)

module _ {W D C X : Type 0} (h : Host W D C X) where
  channels-emit_link_observed :
      (t : Task W D X) (n : NodeId) (e : LinkEndpoint)
      → (emit_link_observed h t n e).l2cap_channels ≡ t.l2cap_channels
  unfolding emit_link_observed
  channels-emit_link_observed t n e = ground arith

  channels-close_in_sessions :
      (t : Task W D X) (n : NodeId) (c : BleChannelId) (p : PeerSessions)
      → (close_in_sessions h t n c p).l2cap_channels ≡ t.l2cap_channels
  unfolding close_in_sessions
  channels-close_in_sessions t n c p = elim (Option-cases (downgrade_l2cap p c).1) [
    | inl e ↦ rw (e, close_in_sessions) refl
    | inr (s, e) ↦ rw (e, close_in_sessions) (channels-emit_link_observed _ n (session_endpoint s))
  ]

  pub channels-handle_l2cap_channel_closed :
      (t : Task W D X) (c : BleChannelId) (channel : ActiveL2capChannel)
      → get c t.l2cap_channels ≡ some channel
      → (handle_l2cap_channel_closed h t c).l2cap_channels ≡ remove c t.l2cap_channels
  unfolding handle_l2cap_channel_closed
  channels-handle_l2cap_channel_closed t c channel e =
      elim (Option-cases (get channel.node_id t.sessions)) [
        | inl gone ↦
            rw (e, handle_l2cap_channel_closed) (rw (gone, handle_l2cap_channel_closed) refl)
        | inr (p, found) ↦
            rw (e, handle_l2cap_channel_closed)
              (rw (found, handle_l2cap_channel_closed)
                (channels-close_in_sessions _ channel.node_id c p))
      ]

  closed_unknown :
      (t : Task W D X) (c : BleChannelId)
      → get c t.l2cap_channels ≡ none
      → handle_l2cap_channel_closed h t c ≡ t
  unfolding handle_l2cap_channel_closed
  closed_unknown t c e = rw (e, handle_l2cap_channel_closed)

  -- A send is dispatched, or it names an L2CAP channel: one that is not registered, with nothing
  -- done, or a registered one that failed.
  data Sent (t : Task W D X) (session : BleSession) (payload : Bytes) : Type 0 where
    dispatched : (send_via_session h t session payload).0 ≡ none → Sent t session payload
    unknown :
        (c : BleChannelId) (d : DeviceId)
        → session ≡ l2cap d c
        → get c t.l2cap_channels ≡ none
        → send_via_session h t session payload ≡ (some c, t)
        → Sent t session payload
    failed :
        (c : BleChannelId) (channel : ActiveL2capChannel)
        → get c t.l2cap_channels ≡ some channel
        → (send_via_session h t session payload).0 ≡ some c
        → (send_via_session h t session payload).1.l2cap_channels ≡ t.l2cap_channels
        → Sent t session payload

  send_cases : (t : Task W D X) (session : BleSession) (payload : Bytes) → Sent t session payload
  unfolding send_via_session
  send_cases t (gatt_central d) payload = dispatched refl
  send_cases t (l2cap d c) payload = elim (Option-cases (get c t.l2cap_channels)) [
    | inl e ↦ unknown c d refl e (rw (e, send_via_session))
    | inr (channel, e) ↦ elim (Bool-cases (h.outbound_send c payload t.world).0) [
      | inl sent ↦ dispatched (rw (e, send_via_session) (rw sent))
      | inr lost ↦
          failed c channel e (rw (e, send_via_session) (rw lost)) (rw (e, send_via_session) refl)
    ]
  ]

  loop_stuck :
      (fuel : ℕ) (t : Task W D X) (device d : DeviceId) (c : BleChannelId) (payload : Bytes)
      → egress_session_for_device t device ≡ some (l2cap d c)
      → get c t.l2cap_channels ≡ none
      → unicast_loop h (suc fuel) t device payload (some c) ≡ some t
  unfolding unicast_loop
  loop_stuck fuel t device d c payload egress gone =
      let sent : send_via_session h t (l2cap d c) payload ≡ (some c, t) =
        unfold send_via_session in rw (gone, send_via_session) in
      rw (egress, unicast_loop)
        (rw (sent, unicast_loop)
          (rw ((nat_beq_iff c c).1 refl, unicast_loop)
            (ap (λ (r : Option BleChannelId × Task W D X). some r.1) sent)))

  -- One more round, when the session is known and its send names a channel.
  loop_round :
      (fuel : ℕ) (t : Task W D X) (device : DeviceId) (payload : Bytes)
      (before : Option BleChannelId) (session : BleSession) (c : BleChannelId)
      → egress_session_for_device t device ≡ some session
      → (send_via_session h t session payload).0 ≡ some c
      → (before == some c) ≡ false
      → unicast_loop h (suc fuel) t device payload before
        ≡ unicast_loop h fuel
            (handle_l2cap_channel_closed h (send_via_session h t session payload).1 c)
            device
            payload
            (some c)
  unfolding unicast_loop
  loop_round fuel t device payload before session c egress sent differ =
      rw (egress, unicast_loop) (rw (sent, unicast_loop) (rw (differ, unicast_loop)))

  loop_repeated :
      (fuel : ℕ) (t : Task W D X) (device : DeviceId) (payload : Bytes)
      (before : Option BleChannelId) (session : BleSession) (c : BleChannelId)
      → egress_session_for_device t device ≡ some session
      → (send_via_session h t session payload).0 ≡ some c
      → (before == some c) ≡ true
      → unicast_loop h (suc fuel) t device payload before
        ≡ some (send_via_session h t session payload).1
  unfolding unicast_loop
  loop_repeated fuel t device payload before session c egress sent same =
      rw (egress, unicast_loop) (rw (sent, unicast_loop) (rw (same, unicast_loop)))

  loop_dispatched :
      (fuel : ℕ) (t : Task W D X) (device : DeviceId) (payload : Bytes)
      (before : Option BleChannelId) (session : BleSession)
      → egress_session_for_device t device ≡ some session
      → (send_via_session h t session payload).0 ≡ none
      → unicast_loop h (suc fuel) t device payload before
        ≡ some (send_via_session h t session payload).1
  unfolding unicast_loop
  loop_dispatched fuel t device payload before session egress sent =
      rw (egress, unicast_loop) (rw (sent, unicast_loop))

  -- A channel that is not registered costs two rounds, and nothing is sent.
  loop_unknown :
      (fuel : ℕ) (t : Task W D X) (device d : DeviceId) (c : BleChannelId) (payload : Bytes)
      (before : Option BleChannelId)
      → egress_session_for_device t device ≡ some (l2cap d c)
      → get c t.l2cap_channels ≡ none
      → unicast_loop h (suc (suc fuel)) t device payload before ≡ some t
  loop_unknown fuel t device d c payload before egress gone =
      let sent : send_via_session h t (l2cap d c) payload ≡ (some c, t) =
        unfold send_via_session in rw (gone, send_via_session) in
      let first : (send_via_session h t (l2cap d c) payload).0 ≡ some c =
        ap (λ (r : Option BleChannelId × Task W D X). r.0) sent in
      let same : (send_via_session h t (l2cap d c) payload).1 ≡ t =
        ap (λ (r : Option BleChannelId × Task W D X). r.1) sent in
      elim (Bool-cases (before == some c)) [
        | inl again ↦
            loop_repeated (suc fuel) t device payload before (l2cap d c) c egress first again
            ∙ ap some same
        | inr differ ↦
            loop_round (suc fuel) t device payload before (l2cap d c) c egress first differ
            ∙ rw (same, closed_unknown t c gone) (loop_stuck fuel t device d c payload egress gone)
      ]

  loop_total :
      (fuel : ℕ) (t : Task W D X) (device : DeviceId) (payload : Bytes)
      (before : Option BleChannelId)
      → length t.l2cap_channels + 2 ≤ fuel
      → (t' : Task W D X) × (unicast_loop h fuel t device payload before ≡ some t')
  loop_total zero t device payload before enough = absurd (omega arith)
  loop_total (suc zero) t device payload before enough = absurd (omega arith)
  loop_total (suc (suc fuel)) t device payload before enough =
      elim (Option-cases (egress_session_for_device t device)) [
        | inl e ↦ (t, unfold unicast_loop in rw (e, unicast_loop))
        | inr (session, e) ↦ elim (send_cases t session payload) [
          | dispatched sent ↦ (_, loop_dispatched (suc fuel) t device payload before session e sent)
          | unknown c d is_l2cap gone sent ↦
              (t, loop_unknown fuel t device d c payload before (e ∙ ap some is_l2cap) gone)
          | failed c channel found sent kept ↦ elim (Bool-cases (before == some c)) [
            | inl again ↦
                (_, loop_repeated (suc fuel) t device payload before session c e sent again)
            | inr differ ↦
                let t1 = (send_via_session h t session payload).1 in
                let t2 = handle_l2cap_channel_closed h t1 c in
                let left : length t2.l2cap_channels < length t.l2cap_channels =
                  rw
                    (
                      channels-handle_l2cap_channel_closed t1 c channel (ap (get c) kept ∙ found),
                      kept,
                    )
                    (length-remove-lt c t.l2cap_channels channel found) in
                let rest =
                  loop_total (suc fuel) t2 device payload (some c) (omega (arith, left, enough)) in
                (
                  rest.0,
                  loop_round (suc fuel) t device payload before session c e sent differ ∙ rest.1,
                )
          ]
        ]
      ]

  -- The unicast loop always ends: with as much fuel as there are registered channels, and two rounds
  -- more, a command is dispatched to an end, whatever the radios answer.
  pub dispatch_unicast_command_total :
      (t : Task W D X) (endpoint : LinkEndpoint) (payload : Bytes)
      → (t' : Task W D X) × (dispatch_unicast_command h t endpoint payload ≡ some t')
  unfolding dispatch_unicast_command
  dispatch_unicast_command_total t endpoint payload =
      elim (Option-cases (device_id_from_endpoint endpoint)) [
        | inl e ↦ (t, rw (e, dispatch_unicast_command))
        | inr (device, e) ↦
            let r = loop_total (unicast_fuel t) t device payload none (omega arith) in
            (r.0, rw (e, dispatch_unicast_command) r.1)
      ]

  -- When the session of a device is an L2CAP session whose channel is no longer registered, a unicast
  -- command for the device does nothing at all: no write to the radio, no change of any session, so
  -- that the next command meets the same session.
  pub dispatch_unicast_command_stale :
      (t : Task W D X) (endpoint : LinkEndpoint) (device d : DeviceId) (c : BleChannelId)
      (payload : Bytes)
      → device_id_from_endpoint endpoint ≡ some device
      → egress_session_for_device t device ≡ some (l2cap d c)
      → get c t.l2cap_channels ≡ none
      → dispatch_unicast_command h t endpoint payload ≡ some t
  unfolding dispatch_unicast_command
  dispatch_unicast_command_stale t endpoint device d c payload e egress gone =
      let fuel : unicast_fuel t ≡ suc (suc (length t.l2cap_channels)) = omega arith in
      rw (e, dispatch_unicast_command)
        (rw fuel (loop_unknown (length t.l2cap_channels) t device d c payload none egress gone))
