-- ===== src/Link/Runtime/Loop/Handlers.antt =====
-- The invariant of the task under the start of the radio and under dispatch.
use jq_ble.Prelude.{
  ℕ, zero, suc, ◌≡◌, refl, ◌∙◌, Option, none, some, List, [], ◌∷◌, ◌==◌, nat_eq, option_eq,
  nat_order, get, Bytes, Bool-cases, Option-cases, inl, inr, arith,
}
use jq_ble.Core.Endpoints.{NodeId, DeviceId, LinkEndpoint, id_eq, id_order, endpoint_eq}
use jq_ble.Core.Events.{TransportDeliveryIntent}
use jq_ble.Link.Gatt.{device_id_from_endpoint, gatt_notify_fanout_endpoint}
use jq_ble.Link.Sessions.{BleChannelId, BleSession, gatt_central, l2cap}
use jq_ble.Link.Startup.{powered_off}
use jq_ble.Link.Host.{Host}
use jq_ble.Link.Runtime.State.{Task, egress_session_for_device}
use jq_ble.Link.Runtime.Starting.{
  try_start_l2cap_listener, try_start_gatt_service, try_start_advertising, try_start_scan,
  try_startup_peripheral, try_startup_central, try_startup, unwrap_false,
}
use jq_ble.Link.Runtime.Starting.Progress.{try_startup-IsOrdered}
use jq_ble.Link.Runtime.Dispatch.{
  send_via_session, unicast_loop, unicast_fuel, dispatch_unicast_command,
  dispatch_multicast_command, notify_subscriber_device_ids, platform_notify_device_ids,
  BleOutboundCommand, dispatch_outbound_command, dispatch_outbound_batch,
}
use jq_ble.Link.Runtime.Channels.{handle_l2cap_channel_closed}
use jq_ble.Link.Runtime.Loop.Sound.{IsSound, start-IsSound, handle_l2cap_channel_closed-IsSound}

abbrev pub WhenSome : {A : Type 0} → (A → Type 0) → Option A → Type 0
WhenSome P none = Unit
WhenSome P (some a) = P a

module _ {W D C X : Type 0} (h : Host W D C X) where
  abbrev Kept : Task W D X → Task W D X → Type 0
  Kept t t' = (t'.sessions ≡ t.sessions) × (t'.l2cap_channels ≡ t.l2cap_channels)

  steps-Kept :
      (t : Task W D X)
      → Kept t (try_start_l2cap_listener h t)
        × Kept t (try_start_gatt_service h t)
        × Kept t (try_start_advertising h t)
        × Kept t (try_start_scan h t)
  unfolding try_start_l2cap_listener try_start_gatt_service try_start_advertising try_start_scan
  steps-Kept t = ground arith

  try_startup_peripheral-Kept : (t : Task W D X) → Kept t (try_startup_peripheral h t)
  unfolding try_startup_peripheral
  try_startup_peripheral-Kept t =
      let t1 = record t { world = (h.peripheral_is_powered t.world).1 } in
      let t2 = try_start_l2cap_listener h t1 in
      let t3 = try_start_gatt_service h t2 in
      let (s1, c1) = (steps-Kept t1).0 in
      let (s2, c2) = (steps-Kept t2).1 in
      let (s3, c3) = (steps-Kept t3).2 in
      elim (Bool-cases (unwrap_false (h.peripheral_is_powered t.world).0)) [
        | inl on ↦ rw on (s3 ∙ s2 ∙ s1, c3 ∙ c2 ∙ c1)
        | inr off ↦ rw off (refl, refl)
      ]

  try_startup_central-Kept : (t : Task W D X) → Kept t (try_startup_central h t)
  unfolding try_startup_central
  try_startup_central-Kept t = elim (Bool-cases (unwrap_false (h.central_is_powered t.world).0)) [
    | inl on ↦ rw on (steps-Kept (record t { world = (h.central_is_powered t.world).1 })).3
    | inr off ↦ rw off (refl, refl)
  ]

  try_startup-Kept : (t : Task W D X) → Kept t (try_startup h t)
  unfolding try_startup
  try_startup-Kept t =
      let t1 = try_startup_peripheral h t in
      let (s1, c1) = try_startup_peripheral-Kept t in
      let (s2, c2) = try_startup_central-Kept t1 in (s2 ∙ s1, c2 ∙ c1)

  pub try_startup-IsSound : (t : Task W D X) → IsSound t → IsSound (try_startup h t)
  try_startup-IsSound t s =
      let (kept_sessions, kept_channels) = try_startup-Kept t in
      let started =
        start-IsSound s (try_startup h t).startup
          (try_startup-IsOrdered h t powered_off s.ordered).0 in
      rw (kept_sessions, kept_channels) started

  -- Dispatch.
  send_via_session-IsSound :
      (t : Task W D X) (session : BleSession) (payload : Bytes)
      → IsSound t
      → IsSound (send_via_session h t session payload).1
  unfolding send_via_session
  send_via_session-IsSound t (gatt_central d) payload s = s
  send_via_session-IsSound t (l2cap d k) payload s = elim (Option-cases (get k t.l2cap_channels)) [
    | inl gone ↦ rw (gone, send_via_session) s
    | inr (channel, found) ↦ rw (found, send_via_session) s
  ]

  unicast_loop-IsSound :
      (fuel : ℕ) (t : Task W D X) (d : DeviceId) (payload : Bytes) (before : Option BleChannelId)
      → IsSound t
      → WhenSome IsSound (unicast_loop h fuel t d payload before)
  unfolding unicast_loop
  unicast_loop-IsSound zero t d payload before s = tt
  unicast_loop-IsSound (suc fuel) t d payload before s =
      elim (Option-cases (egress_session_for_device t d)) [
        | inl e ↦ rw (e, unicast_loop) s
        | inr (session, e) ↦
            let t1 = (send_via_session h t session payload).1 in
            let s1 = send_via_session-IsSound t session payload s in
            elim (Option-cases (send_via_session h t session payload).0) [
              | inl sent ↦ rw (e, unicast_loop) (rw (sent, unicast_loop) s1)
              | inr (k, failed) ↦ elim (Bool-cases (before == some k)) [
                | inl again ↦
                    rw (e, unicast_loop) (rw (failed, unicast_loop) (rw (again, unicast_loop) s1))
                | inr differ ↦
                    rw (e, unicast_loop)
                      (rw (failed, unicast_loop)
                        (rw (differ, unicast_loop)
                          (unicast_loop-IsSound fuel (handle_l2cap_channel_closed h t1 k) d payload
                            (some k) (handle_l2cap_channel_closed-IsSound h t1 k s1))))
              ]
            ]
      ]

  dispatch_unicast_command-IsSound :
      (t : Task W D X) (e : LinkEndpoint) (payload : Bytes)
      → IsSound t
      → WhenSome IsSound (dispatch_unicast_command h t e payload)
  unfolding dispatch_unicast_command
  dispatch_unicast_command-IsSound t e payload s = elim (Option-cases (device_id_from_endpoint e)) [
    | inl gone ↦ rw (gone, dispatch_unicast_command) s
    | inr (d, found) ↦
        rw (found, dispatch_unicast_command)
          (unicast_loop-IsSound (unicast_fuel t) t d payload none s)
  ]

  dispatch_multicast_command-IsSound :
      (t : Task W D X) (e : LinkEndpoint) (ns : List NodeId) (payload : Bytes)
      → IsSound t
      → IsSound (dispatch_multicast_command h t e ns payload)
  unfolding dispatch_multicast_command
  dispatch_multicast_command-IsSound t e ns payload s =
      elim (Bool-cases (e == gatt_notify_fanout_endpoint)) [
        | inr other ↦ rw other s
        | inl fanout ↦ elim (Option-cases (notify_subscriber_device_ids t.sessions ns)) [
          | inl gone ↦ rw fanout (rw (gone, dispatch_multicast_command) s)
          | inr (ds, found) ↦
              elim (Option-cases (platform_notify_device_ids h.platform t.sessions ns ds)) [
                | inl refused ↦ rw fanout (
                    rw (found, dispatch_multicast_command)
                      (rw (refused, dispatch_multicast_command) s))
                | inr (targets, allowed) ↦ rw fanout (
                    rw (found, dispatch_multicast_command)
                      (rw (allowed, dispatch_multicast_command) s))
              ]
        ]
      ]

  dispatch_outbound_command-IsSound :
      (t : Task W D X) (c : BleOutboundCommand)
      → IsSound t
      → WhenSome IsSound (dispatch_outbound_command h t c)
  unfolding dispatch_outbound_command
  dispatch_outbound_command-IsSound t c s = by_intent c.intent
    where
      by_intent :
          (i : TransportDeliveryIntent)
          → WhenSome IsSound (elim i [
            | TransportDeliveryIntent.unicast endpoint ↦
                dispatch_unicast_command h t endpoint c.payload
            | TransportDeliveryIntent.multicast endpoint group_id receivers ↦
                some (dispatch_multicast_command h t endpoint receivers c.payload)
            | TransportDeliveryIntent.broadcast endpoint ↦ some t
          ])
      by_intent (TransportDeliveryIntent.unicast endpoint) =
          dispatch_unicast_command-IsSound t endpoint c.payload s
      by_intent (TransportDeliveryIntent.multicast endpoint group_id receivers) =
          dispatch_multicast_command-IsSound t endpoint receivers c.payload s
      by_intent (TransportDeliveryIntent.broadcast endpoint) = s

  pub dispatch_outbound_batch-IsSound :
      (t : Task W D X) (batch : List BleOutboundCommand)
      → IsSound t
      → WhenSome IsSound (dispatch_outbound_batch h t batch)
  unfolding dispatch_outbound_batch
  dispatch_outbound_batch-IsSound t [] s = s
  dispatch_outbound_batch-IsSound t (c ∷ rest) s =
      elim (Option-cases (dispatch_outbound_command h t c)) [
        | inl gone ↦ rw (gone, dispatch_outbound_batch) tt
        | inr (t1, done) ↦
            rw (done, dispatch_outbound_batch)
              (dispatch_outbound_batch-IsSound t1 rest
                (rw done at (dispatch_outbound_command-IsSound t c s)))
      ]
