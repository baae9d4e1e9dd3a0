-- ===== src/Link/Sessions.antt =====
-- crates/jq-link-profile/src/transport.rs: the sessions that the runtime keeps for a peer.
pub mod Invariant
pub mod Transitions
use jq_ble.Prelude.{
  ℕ, Bool, true, false, not, ◌||◌, Option, none, some, List, [], ◌∷◌, ◌++◌, ◌==◌, nat_eq, contains,
  if◌then◌else◌, any, retain, find, first, length,
}
use jq_ble.Core.Endpoints.{DeviceId, LinkEndpoint, id_eq, endpoint_eq}
use jq_ble.Link.Gatt.{gatt_endpoint, l2cap_endpoint, gatt_notify_fanout_endpoint}

abbrev pub BleChannelId : Type 0
BleChannelId = ℕ

pub data BleSession : Type 0 where
  gatt_central : DeviceId → BleSession
  l2cap : DeviceId → BleChannelId → BleSession

pub record BleNotifySubscriber : Type 0 where
  pub device_id : DeviceId

pub data PeerSessionState : Type 0 where
  disconnected : PeerSessionState
  -- Ingress, egress.
  gatt_only : BleSession → BleSession → PeerSessionState
  -- Session, fallback.
  l2cap_preferred : BleSession → Option BleSession → PeerSessionState

pub record PeerSessions : Type 0 where
  pub state : PeerSessionState
  pub notify_subscribers : List BleNotifySubscriber

-- `BleSession::device_id`, `BleSession::endpoint`.
abbrev pub session_device_id : BleSession → DeviceId
session_device_id (gatt_central device_id) = device_id
session_device_id (l2cap device_id channel_id) = device_id

unfoldable pub session_endpoint : BleSession → LinkEndpoint
session_endpoint (gatt_central device_id) = gatt_endpoint device_id
session_endpoint (l2cap device_id channel_id) = l2cap_endpoint device_id

abbrev pub is_l2cap : BleSession → Bool
is_l2cap (gatt_central device_id) = false
is_l2cap (l2cap device_id channel_id) = true

unfoldable pub gatt_only_sessions : BleSession → PeerSessions
gatt_only_sessions session = record { state = gatt_only session session; notify_subscribers = [] }

unfoldable pub gatt_with_fallback : BleSession → PeerSessions
unfolding gatt_only_sessions
gatt_with_fallback session = gatt_only_sessions session

unfoldable pub gatt_notify_fanout : BleNotifySubscriber → PeerSessions
gatt_notify_fanout subscriber = record {
  state = disconnected;
  notify_subscribers = subscriber ∷ [];
}

unfoldable pub l2cap_preferred_sessions : BleSession → Option BleSession → PeerSessions
l2cap_preferred_sessions session fallback = record {
  state = l2cap_preferred session fallback;
  notify_subscribers = [];
}

-- The first subscriber with the same device is overwritten; without one, the new one is pushed.
unfoldable pub put_subscriber :
    BleNotifySubscriber → List BleNotifySubscriber → List BleNotifySubscriber
put_subscriber subscriber [] = subscriber ∷ []
put_subscriber subscriber (existing ∷ rest) =
    let later = put_subscriber subscriber rest in
    if existing.device_id == subscriber.device_id then subscriber ∷ rest else existing ∷ later

unfoldable pub install_gatt_subscription : PeerSessions → BleNotifySubscriber → PeerSessions
install_gatt_subscription p subscriber = record p {
  notify_subscribers = put_subscriber subscriber p.notify_subscribers;
}

unfoldable pub remove_gatt_subscription : PeerSessions → DeviceId → PeerSessions × Bool
remove_gatt_subscription p device_id =
    let kept = retain (λ s. not (s.device_id == device_id)) p.notify_subscribers in
    (record p { notify_subscribers = kept }, not (length p.notify_subscribers == length kept))

abbrev subscriber_device : Option BleNotifySubscriber → Option DeviceId
subscriber_device none = none
subscriber_device (some subscriber) = some subscriber.device_id

unfoldable pub notify_subscriber_device_id : PeerSessions → Option DeviceId
notify_subscriber_device_id p = subscriber_device (first p.notify_subscribers)

abbrev fallback_or : Option BleSession → BleSession → Option BleSession
fallback_or none session = some session
fallback_or (some fallback) session = some fallback

abbrev central_installed : PeerSessionState → BleSession → PeerSessionState
central_installed disconnected session = gatt_only session session
central_installed (gatt_only ingress egress) session = gatt_only session session
central_installed (l2cap_preferred current fallback) session =
    l2cap_preferred current (fallback_or fallback session)

unfoldable pub install_gatt_central : PeerSessions → BleSession → PeerSessions
install_gatt_central p session = record p { state = central_installed p.state session }

unfoldable pub preferred_egress : PeerSessions → Option BleSession
preferred_egress p = elim p.state [
  | disconnected ↦ none
  | gatt_only ingress egress ↦ some egress
  | l2cap_preferred session fallback ↦ some session
]

abbrev option_list : Option BleSession → List BleSession
option_list none = []
option_list (some session) = session ∷ []

abbrev state_sessions : PeerSessionState → List BleSession
state_sessions disconnected = []
state_sessions (gatt_only ingress egress) = ingress ∷ egress ∷ []
state_sessions (l2cap_preferred session fallback) = session ∷ option_list fallback

unfoldable pub iter_sessions : PeerSessions → List BleSession
iter_sessions p = state_sessions p.state

unfoldable pub first_gatt_fallback : PeerSessions → Option BleSession
unfolding iter_sessions
first_gatt_fallback p = find (λ session. not (is_l2cap session)) (iter_sessions p)

unfoldable pub promote_l2cap : PeerSessions → BleSession → PeerSessions
unfolding first_gatt_fallback
promote_l2cap p session = record p { state = l2cap_preferred session (first_gatt_fallback p) }

abbrev fall_back : Option BleSession → PeerSessionState
fall_back none = disconnected
fall_back (some fallback) = gatt_only fallback fallback

-- The fallback, if the state prefers the channel in question; otherwise `none`, and the early return.
abbrev broken_fallback : PeerSessionState → BleChannelId → Option (Option BleSession)
broken_fallback (l2cap_preferred (l2cap device_id current) fallback) channel_id =
    if current == channel_id then some fallback else none
broken_fallback _ channel_id = none

unfoldable pub downgrade_l2cap : PeerSessions → BleChannelId → PeerSessions × Option BleSession
unfolding preferred_egress
downgrade_l2cap p channel_id = elim (broken_fallback p.state channel_id) [
  | none ↦ (p, preferred_egress p)
  | some fallback ↦ (record p { state = fall_back fallback }, fallback)
]

abbrev of_device : DeviceId → Option BleSession → Option BleSession
of_device device_id none = none
of_device device_id (some session) =
    if session_device_id session == device_id then some session else none

unfoldable pub egress_for_device : PeerSessions → DeviceId → Option BleSession
unfolding preferred_egress
egress_for_device p device_id = of_device device_id (preferred_egress p)

unfoldable pub push_unique_endpoint : List LinkEndpoint → LinkEndpoint → List LinkEndpoint
push_unique_endpoint endpoints endpoint =
    if contains endpoints endpoint then endpoints else endpoints ++ endpoint ∷ []

-- The two loops of `endpoints_for_device`.
unfoldable pub session_endpoints :
    DeviceId → List LinkEndpoint → List BleSession → List LinkEndpoint
session_endpoints device_id endpoints [] = endpoints
session_endpoints device_id endpoints (session ∷ rest) =
    session_endpoints device_id
      (if session_device_id session == device_id
        then push_unique_endpoint endpoints (session_endpoint session)
        else endpoints)
      rest

unfoldable pub subscriber_endpoints :
    DeviceId → List LinkEndpoint → List BleNotifySubscriber → List LinkEndpoint
subscriber_endpoints device_id endpoints [] = endpoints
subscriber_endpoints device_id endpoints (subscriber ∷ rest) =
    subscriber_endpoints device_id
      (if subscriber.device_id == device_id
        then push_unique_endpoint endpoints gatt_notify_fanout_endpoint
        else endpoints)
      rest

unfoldable pub endpoints_for_device : PeerSessions → DeviceId → List LinkEndpoint
endpoints_for_device p device_id =
    subscriber_endpoints device_id (session_endpoints device_id [] (iter_sessions p))
      p.notify_subscribers

unfoldable pub references_device : PeerSessions → DeviceId → Bool
unfolding iter_sessions
references_device p device_id =
    any (λ session. session_device_id session == device_id) (iter_sessions p)
    || any (λ subscriber. subscriber.device_id == device_id) p.notify_subscribers
