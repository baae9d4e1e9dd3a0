-- ===== src/Link/Runtime/Dispatch/Fanout.antt =====
-- What a multicast command makes of the radio.
use jq_ble.Prelude.{
  ◌≡◌, ◌≢◌, ◌⊎◌, none, some, List, [], ◌∷◌, Bytes, nat_eq, nat_order, list_eq, Map, get, keys,
  contains, is_some, Member,
}
use jq_ble.Core.Endpoints.{NodeId, DeviceId, LinkEndpoint, id_eq, id_order}
use jq_ble.Link.Gatt.{gatt_notify_fanout_endpoint}
use jq_ble.Link.Sessions.{PeerSessions}
use jq_ble.Link.Host.{Host, Platform}
use jq_ble.Link.Runtime.State.{Task}
use jq_ble.Link.Runtime.Dispatch.{
  to_set, subscribed_nodes, subscriber_of, notify_subscriber_device_ids, platform_notify_device_ids,
  notify_all, dispatch_multicast_command,
}

module _ (m : Map NodeId PeerSessions) where
  -- Every receiver is notified by its subscriber, and nobody else is.
  pub record Covers (receivers : List NodeId) (ids : List DeviceId) : Type 0 where
    pub each :
        (r : NodeId)
        → Member r receivers
        → (d : DeviceId) × (subscriber_of (get r m) ≡ some d) × Member d ids
    pub only :
        (d : DeviceId)
        → Member d ids
        → (r : NodeId) × Member r receivers × (subscriber_of (get r m) ≡ some d)

  -- A receiver that no subscriber stands for.
  abbrev pub LacksOne : List NodeId → Type 0
  LacksOne receivers = (r : NodeId) × Member r receivers × (subscriber_of (get r m) ≡ none)

  -- Of the lookup of the subscribers.
  data Looked (rs : List NodeId) : Type 0 where
    empty : rs ≡ [] → notify_subscriber_device_ids m rs ≡ none → Looked rs
    lacking : LacksOne rs → notify_subscriber_device_ids m rs ≡ none → Looked rs
    covered :
        (d : DeviceId) (ds : List DeviceId)
        → rs ≢ []
        → Covers rs (d ∷ ds)
        → notify_subscriber_device_ids m rs ≡ some (d ∷ ds)
        → Looked rs

  -- Of what the platform makes of them.
  data Chosen (platform : Platform) (rs : List NodeId) (ids : List DeviceId) : Type 0 where
    refused :
        platform ≡ Platform.linux
        → keys (to_set rs) ≢ keys (to_set (subscribed_nodes m))
        → platform_notify_device_ids platform m rs ids ≡ none
        → Chosen platform rs ids
    chosen :
        (targets : List DeviceId)
        → platform_notify_device_ids platform m rs ids ≡ some targets
        → targets ≢ []
        → ((d : DeviceId) → Member d targets → Member d ids)
        → ((d : DeviceId) → Member d ids → (platform ≡ Platform.linux) ⊎ Member d targets)
        → Chosen platform rs ids

module _ {W D C X : Type 0} (h : Host W D C X) (t : Task W D X) (endpoint : LinkEndpoint)
    (receivers : List NodeId) (payload : Bytes) where
  -- The radio is told to notify `targets`, and nothing else happens. Each receiver has a subscriber,
  -- each target is one, and where devices can be notified one by one the subscriber of each receiver
  -- is a target; on Linux, where one notification reaches all subscribers, the receivers are exactly
  -- the nodes with a subscriber.
  pub record Notifies (targets : List DeviceId) : Type 0 where
    pub aimed : endpoint ≡ gatt_notify_fanout_endpoint
    pub told :
        dispatch_multicast_command h t endpoint receivers payload
        ≡ record t { world = notify_all h t.world targets payload }
    pub some_target : targets ≢ []
    pub each :
        (r : NodeId)
        → Member r receivers
        → (d : DeviceId) × (subscriber_of (get r t.sessions) ≡ some d)
          × ((h.platform ≡ Platform.linux) ⊎ Member d targets)
    pub only :
        (d : DeviceId)
        → Member d targets
        → (r : NodeId) × Member r receivers × (subscriber_of (get r t.sessions) ≡ some d)
    pub exact :
        h.platform ≡ Platform.linux
        → (n : NodeId) → contains receivers n ≡ is_some (subscriber_of (get n t.sessions))

  -- Why nothing is sent.
  pub data Withholds : Type 0 where
    elsewhere : endpoint ≢ gatt_notify_fanout_endpoint → Withholds
    unaddressed : receivers ≡ [] → Withholds
    unsubscribed : LacksOne t.sessions receivers → Withholds
    overheard :
        h.platform ≡ Platform.linux
        → keys (to_set receivers) ≢ keys (to_set (subscribed_nodes t.sessions))
        → Withholds

  abbrev Outcome : Type 0
  Outcome =
      ((targets : List DeviceId) × Notifies targets)
      ⊎ ((dispatch_multicast_command h t endpoint receivers payload ≡ t) × Withholds)
