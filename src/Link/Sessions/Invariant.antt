-- ===== src/Link/Sessions/Invariant.antt =====
-- What holds of the sessions of a peer, however the runtime built them.
use jq_ble.Prelude.{
  ◌≡◌, refl, subst, Bool, true, false, not, Option, none, some, List, [], ◌∷◌, arith, ◌==◌, nat_eq,
  if◌then◌else◌, any, retain, All, Bool-cases, Option-cases, find, inl, inr,
}
use jq_ble.Core.Endpoints.{DeviceId, id_eq, id_beq_iff}
use jq_ble.Link.Sessions.{
  BleChannelId, BleSession, gatt_central, l2cap, BleNotifySubscriber, PeerSessionState,
  disconnected, gatt_only, l2cap_preferred, PeerSessions, is_l2cap, option_list, gatt_only_sessions,
  gatt_notify_fanout, l2cap_preferred_sessions, put_subscriber, install_gatt_subscription,
  remove_gatt_subscription, install_gatt_central, promote_l2cap, first_gatt_fallback,
  downgrade_l2cap, iter_sessions, central_installed, fall_back, broken_fallback,
}

-- An L2CAP session is preferred over a GATT one, and GATT sessions serve both directions alike.
abbrev pub IsWellFormedState : PeerSessionState → Type 0
IsWellFormedState disconnected = Unit
IsWellFormedState (gatt_only ingress egress) = (ingress ≡ egress) × (is_l2cap egress ≡ false)
IsWellFormedState (l2cap_preferred session fallback) =
    (is_l2cap session ≡ true) × All (λ s. is_l2cap s ≡ false) (option_list fallback)

abbrev pub subscribes : DeviceId → List BleNotifySubscriber → Bool
subscribes d = any (λ s. s.device_id == d)

-- No device is listed twice.
abbrev pub HasDistinctDevices : List BleNotifySubscriber → Type 0
HasDistinctDevices [] = Unit
HasDistinctDevices (s ∷ ss) = (subscribes s.device_id ss ≡ false) × HasDistinctDevices ss

pub record IsWellFormed (p : PeerSessions) : Type 0 where
  pub state_ok : IsWellFormedState p.state
  pub distinct : HasDistinctDevices p.notify_subscribers

-- The operations as the runtime calls them: a GATT session for the central role, an L2CAP session
-- for a promotion.
pub data Operation : Type 0 where
  subscribe : BleNotifySubscriber → Operation
  unsubscribe : DeviceId → Operation
  connect : DeviceId → Operation
  promote : DeviceId → BleChannelId → Operation
  downgrade : BleChannelId → Operation

abbrev pub apply : PeerSessions → Operation → PeerSessions
apply p (subscribe s) = install_gatt_subscription p s
apply p (unsubscribe d) = (remove_gatt_subscription p d).0
apply p (connect d) = install_gatt_central p (gatt_central d)
apply p (promote d c) = promote_l2cap p (l2cap d c)
apply p (downgrade c) = (downgrade_l2cap p c).0

-- What the runtime can have stored for a peer.
pub data Reachable : PeerSessions → Type 0 where
  connected : (d : DeviceId) → Reachable (gatt_only_sessions (gatt_central d))
  subscribed : (s : BleNotifySubscriber) → Reachable (gatt_notify_fanout s)
  accepted :
      (d : DeviceId) (c : BleChannelId) → Reachable (l2cap_preferred_sessions (l2cap d c) none)
  next : {p : PeerSessions} → Reachable p → (o : Operation) → Reachable (apply p o)

pub subscribes-put_subscriber :
    (s : BleNotifySubscriber) (ss : List BleNotifySubscriber) (d : DeviceId)
    → subscribes d (put_subscriber s ss) ≡ (if s.device_id == d then true else subscribes d ss)
unfolding put_subscriber
subscribes-put_subscriber s [] d = refl
subscribes-put_subscriber s (x ∷ ss) d = ground (
  arith,
  id_beq_iff x.device_id s.device_id,
  id_beq_iff x.device_id d,
  id_beq_iff s.device_id d,
  subscribes-put_subscriber s ss d,
)

put_subscriber-HasDistinctDevices :
    (s : BleNotifySubscriber) (ss : List BleNotifySubscriber)
    → HasDistinctDevices ss
    → HasDistinctDevices (put_subscriber s ss)
unfolding put_subscriber
put_subscriber-HasDistinctDevices s [] h = (refl, tt)
put_subscriber-HasDistinctDevices s (x ∷ ss) h = elim (Bool-cases (x.device_id == s.device_id)) [
  | inl same ↦
      rw same (
        subst (λ d. subscribes d ss ≡ false) ((id_beq_iff x.device_id s.device_id).0 same) h.0,
        h.1,
      )
  | inr differ ↦ rw differ (
    ground (
      arith,
      subscribes-put_subscriber s ss x.device_id,
      id_beq_iff x.device_id s.device_id,
      id_beq_iff s.device_id x.device_id,
    ),
    put_subscriber-HasDistinctDevices s ss h.1,
  )
]

abbrev pub others : DeviceId → BleNotifySubscriber → Bool
others d s = not (s.device_id == d)

pub subscribes-retain :
    (d e : DeviceId) (ss : List BleNotifySubscriber)
    → subscribes e (retain (others d) ss) ≡ (if d == e then false else subscribes e ss)
subscribes-retain d e [] = ground arith
subscribes-retain d e (x ∷ ss) = ground (
  arith,
  id_beq_iff x.device_id d,
  id_beq_iff x.device_id e,
  id_beq_iff d e,
  subscribes-retain d e ss,
)

retain-HasDistinctDevices :
    (d : DeviceId) (ss : List BleNotifySubscriber)
    → HasDistinctDevices ss
    → HasDistinctDevices (retain (others d) ss)
retain-HasDistinctDevices d [] h = tt
retain-HasDistinctDevices d (x ∷ ss) h = elim (Bool-cases (x.device_id == d)) [
  | inl same ↦ rw same (retain-HasDistinctDevices d ss h.1)
  | inr differ ↦
      rw differ (
        ground (arith, subscribes-retain d x.device_id ss, h.0),
        retain-HasDistinctDevices d ss h.1,
      )
]

find-IsGatt :
    (xs : List BleSession)
    → All (λ s. is_l2cap s ≡ false) (option_list (find (λ s. not (is_l2cap s)) xs))
find-IsGatt [] = tt
find-IsGatt (gatt_central d ∷ xs) = (refl, tt)
find-IsGatt (l2cap d c ∷ xs) = find-IsGatt xs

first_gatt_fallback-IsGatt :
    (p : PeerSessions) → All (λ s. is_l2cap s ≡ false) (option_list (first_gatt_fallback p))
unfolding first_gatt_fallback
first_gatt_fallback-IsGatt p = find-IsGatt (iter_sessions p)

central_installed-IsWellFormedState :
    (st : PeerSessionState) (d : DeviceId)
    → IsWellFormedState st
    → IsWellFormedState (central_installed st (gatt_central d))
central_installed-IsWellFormedState disconnected d h = (refl, refl)
central_installed-IsWellFormedState (gatt_only i e) d h = (refl, refl)
central_installed-IsWellFormedState (l2cap_preferred s none) d h = (h.0, (refl, tt))
central_installed-IsWellFormedState (l2cap_preferred s (some f)) d h = h

fall_back-IsWellFormedState :
    (f : Option BleSession)
    → All (λ s. is_l2cap s ≡ false) (option_list f)
    → IsWellFormedState (fall_back f)
fall_back-IsWellFormedState none h = tt
fall_back-IsWellFormedState (some f) h = (refl, h.0)

broken_fallback-IsGatt :
    (st : PeerSessionState) (c : BleChannelId) (f : Option BleSession)
    → IsWellFormedState st
    → broken_fallback st c ≡ some f
    → All (λ s. is_l2cap s ≡ false) (option_list f)
broken_fallback-IsGatt disconnected c f h e = cc
broken_fallback-IsGatt (gatt_only i g) c f h e = cc
broken_fallback-IsGatt (l2cap_preferred (gatt_central d) g) c f h e = cc
broken_fallback-IsGatt (l2cap_preferred (l2cap d k) g) c f h e =
    let same : g ≡ f = ground arith in
    subst (λ o. All (λ s. is_l2cap s ≡ false) (option_list o)) same h.1

downgrade_l2cap-state :
    (p : PeerSessions) (c : BleChannelId)
    → IsWellFormedState p.state
    → IsWellFormedState (downgrade_l2cap p c).0.state
unfolding downgrade_l2cap
downgrade_l2cap-state p c h = elim (Option-cases (broken_fallback p.state c)) [
  | inl kept ↦ rw (kept, downgrade_l2cap) h
  | inr (f, broken) ↦
      rw (broken, downgrade_l2cap)
        (fall_back-IsWellFormedState f (broken_fallback-IsGatt p.state c f h broken))
]

pub downgrade_l2cap-notify_subscribers :
    (p : PeerSessions) (c : BleChannelId)
    → (downgrade_l2cap p c).0.notify_subscribers ≡ p.notify_subscribers
unfolding downgrade_l2cap
downgrade_l2cap-notify_subscribers p c = ground arith

operation-state_ok :
    (p : PeerSessions) (o : Operation)
    → IsWellFormedState p.state
    → IsWellFormedState (apply p o).state
unfolding install_gatt_subscription remove_gatt_subscription install_gatt_central promote_l2cap
operation-state_ok p (promote d c) h = (refl, first_gatt_fallback-IsGatt p)
operation-state_ok p (connect d) h = central_installed-IsWellFormedState p.state d h
operation-state_ok p (downgrade c) h = downgrade_l2cap-state p c h
operation-state_ok p o h = h

operation-distinct :
    (p : PeerSessions) (o : Operation)
    → HasDistinctDevices p.notify_subscribers
    → HasDistinctDevices (apply p o).notify_subscribers
unfolding install_gatt_subscription remove_gatt_subscription install_gatt_central promote_l2cap
operation-distinct p (subscribe s) h = put_subscriber-HasDistinctDevices s p.notify_subscribers h
operation-distinct p (unsubscribe d) h = retain-HasDistinctDevices d p.notify_subscribers h
operation-distinct p (downgrade c) h = rw (downgrade_l2cap-notify_subscribers p c) h
operation-distinct p o h = h

-- However the runtime builds the sessions of a peer, by any sequence of its operations, a preferred
-- L2CAP session is an L2CAP session with at most a GATT session behind it, the two directions of a
-- GATT-only peer share one GATT session, and no device is subscribed twice.
pub Reachable-IsWellFormed : {p : PeerSessions} → Reachable p → IsWellFormed p
unfolding gatt_only_sessions gatt_notify_fanout l2cap_preferred_sessions
Reachable-IsWellFormed (connected d) = record { state_ok = (refl, refl); distinct = tt }
Reachable-IsWellFormed (subscribed s) = record { state_ok = tt; distinct = (refl, tt) }
Reachable-IsWellFormed (accepted d c) = record { state_ok = (refl, tt); distinct = tt }
Reachable-IsWellFormed (next {p} r o) =
    let before = Reachable-IsWellFormed r in
    record {
      state_ok = operation-state_ok p o before.state_ok;
      distinct = operation-distinct p o before.distinct;
    }
