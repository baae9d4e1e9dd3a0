-- ===== src/Link/Sessions/Transitions.antt =====
-- What the operations on the sessions of a peer do to each other.
use jq_ble.Prelude.{
  ◌≡◌, ◌≤◌, refl, ap, ◌∙◌, true, false, not, none, some, List, [], ◌∷◌, arith, ◌==◌, nat_eq,
  nat_beq_iff, if◌then◌else◌, any, retain, find, length,
}
use jq_ble.Core.Endpoints.{DeviceId, id_eq, endpoint_eq}
use jq_ble.Link.Sessions.{
  BleChannelId, gatt_central, l2cap, BleNotifySubscriber, PeerSessionState, disconnected, gatt_only,
  l2cap_preferred, PeerSessions, is_l2cap, install_gatt_subscription, remove_gatt_subscription,
  promote_l2cap, first_gatt_fallback, downgrade_l2cap, preferred_egress, iter_sessions, fall_back,
  state_sessions,
}
use jq_ble.Link.Sessions.Invariant.{
  IsWellFormedState, subscribes, subscribes-put_subscriber, subscribes-retain, others,
}

length-others-le :
    (d : DeviceId) (ss : List BleNotifySubscriber) → length (retain (others d) ss) ≤ length ss
length-others-le d [] = omega arith
length-others-le d (x ∷ ss) = ground (arith, length-others-le d ss)

shrinks :
    (d : DeviceId) (ss : List BleNotifySubscriber)
    → not (length ss == length (retain (others d) ss)) ≡ subscribes d ss
shrinks d [] = refl
shrinks d (x ∷ ss) = ground (arith, shrinks d ss, length-others-le d ss)

-- Closing the channel of a promotion leads to the peer's first GATT session, which then carries both
-- directions, or to no session if there was none; the subscribers stay.
pub downgrade_l2cap-promote_l2cap :
    (p : PeerSessions) (d : DeviceId) (c : BleChannelId)
    → downgrade_l2cap (promote_l2cap p (l2cap d c)) c
      ≡ (record p { state = fall_back (first_gatt_fallback p) }, first_gatt_fallback p)
unfolding downgrade_l2cap promote_l2cap
downgrade_l2cap-promote_l2cap p d c = rw ((nat_beq_iff c c).1 refl, downgrade_l2cap)

fall_back-first :
    (st : PeerSessionState)
    → IsWellFormedState st
    → any is_l2cap (state_sessions st) ≡ false
    → fall_back (find (λ s. not (is_l2cap s)) (state_sessions st)) ≡ st
fall_back-first disconnected h none_l2cap = refl
fall_back-first (gatt_only (gatt_central d) e) h none_l2cap = ap (gatt_only (gatt_central d)) h.0
fall_back-first (gatt_only (l2cap d c) e) h none_l2cap = ground arith
fall_back-first (l2cap_preferred s f) h none_l2cap = ground arith

egress-first :
    (p : PeerSessions)
    → IsWellFormedState p.state
    → any is_l2cap (iter_sessions p) ≡ false
    → first_gatt_fallback p ≡ preferred_egress p
unfolding first_gatt_fallback preferred_egress
egress-first p h none_l2cap = state_case p.state h none_l2cap
  where
    state_case :
        (st : PeerSessionState)
        → IsWellFormedState st
        → any is_l2cap (state_sessions st) ≡ false
        → find (λ s. not (is_l2cap s)) (state_sessions st) ≡ elim st [
          | disconnected ↦ none
          | gatt_only ingress egress ↦ some egress
          | l2cap_preferred session fallback ↦ some session
        ]
    state_case disconnected h none_l2cap = refl
    state_case (gatt_only (gatt_central d) e) h none_l2cap = ap some h.0
    state_case (gatt_only (l2cap d c) e) h none_l2cap = ground arith
    state_case (l2cap_preferred s f) h none_l2cap = ground arith

-- A peer without an L2CAP session is, after a promotion and the close of its channel, exactly where
-- it was, and its egress is the one that it had.
pub downgrade_l2cap-promote_l2cap_restores :
    (p : PeerSessions) (d : DeviceId) (c : BleChannelId)
    → IsWellFormedState p.state
    → any is_l2cap (iter_sessions p) ≡ false
    → downgrade_l2cap (promote_l2cap p (l2cap d c)) c ≡ (p, preferred_egress p)
unfolding first_gatt_fallback
downgrade_l2cap-promote_l2cap_restores p d c h none_l2cap =
    let first = egress-first p h none_l2cap in
    let back = fall_back-first p.state h none_l2cap in
    downgrade_l2cap-promote_l2cap p d c ∙ λ i. (record p { state = back i }, first i)

-- A subscription adds its device alone, and the end of one takes its device away alone; the second
-- reports whether the device was subscribed.
pub subscriptions_exact :
    (p : PeerSessions) (s : BleNotifySubscriber) (d e : DeviceId)
    → (subscribes e (install_gatt_subscription p s).notify_subscribers
        ≡ (if s.device_id == e then true else subscribes e p.notify_subscribers))
      × (subscribes e (remove_gatt_subscription p d).0.notify_subscribers
          ≡ (if d == e then false else subscribes e p.notify_subscribers))
      × ((remove_gatt_subscription p d).1 ≡ subscribes d p.notify_subscribers)
unfolding install_gatt_subscription remove_gatt_subscription
subscriptions_exact p s d e = (
  subscribes-put_subscriber s p.notify_subscribers e,
  subscribes-retain d e p.notify_subscribers,
  shrinks d p.notify_subscribers,
)
