-- ===== src/Link/Runtime/State.antt =====
-- The state of `BleRuntimeTask`, and the lookups on it.
use jq_ble.Prelude.{
  ℕ, Bool, false, Option, none, some, List, [], ◌==◌, nat_eq, nat_order, Map, values, find_map,
  saturating_suc, if◌then◌else◌,
}
use jq_ble.Core.Endpoints.{NodeId, DeviceId, BlePeerKey, id_eq, id_order}
use jq_ble.Core.Events.{TransportIngressEvent}
use jq_ble.Link.Gatt.{Uuid, Psm}
use jq_ble.Link.Sessions.{BleChannelId, BleSession, PeerSessions, egress_for_device}
use jq_ble.Link.Startup.{BleStartupState, default_startup}
use jq_ble.Link.Host.{Host, BleScanMode, PeerIdentityState, resolved, hint}

pub record ActiveL2capChannel : Type 0 where
  pub node_id : NodeId
  pub device_id : DeviceId

pub record BleDevice : Type 0 where
  pub id : DeviceId
  pub services : List Uuid

pub record BleQueueConfig : Type 0 where
  pub ingress_capacity : ℕ
  pub command_capacity : ℕ

pub record BleScanConfig : Type 0 where
  pub scan_service_uuids : List Uuid
  pub scan_mode : BleScanMode

pub record BleConfig : Type 0 where
  pub queue : BleQueueConfig
  pub scan : BleScanConfig

pub record BleRestoredState : Type 0 where
  pub central_devices : List BleDevice
  pub peripheral_service_uuids : List Uuid

-- `world` holds the radios, the queues and the claims; `is_listening` says that there is an L2CAP
-- accept stream.
pub record Task (W D X : Type 0) : Type 0 where
  pub world : W
  pub is_listening : Bool
  pub l2cap_channels : Map BleChannelId ActiveL2capChannel
  pub next_channel_id : ℕ
  pub peers : D
  pub sessions : Map NodeId PeerSessions
  pub local_node_id : NodeId
  pub local_psm : Option Psm
  pub config : BleConfig
  pub restored_state : BleRestoredState
  pub startup : BleStartupState
  pub deferred_control_ingress : List (TransportIngressEvent X)

pub data BleLinkError : Type 0 where
  zero_ingress_capacity zero_command_capacity : BleLinkError

pub data Created (W D X : Type 0) : Type 0 where
  ok : Task W D X → Created W D X
  err : BleLinkError → Created W D X

-- `BlePeerKey::from`.
abbrev pub peer_key : DeviceId → BlePeerKey
peer_key device_id = record { bytes = device_id.bytes }

abbrev pub initial_task :
    {W D X : Type 0} → NodeId → W → D → BleConfig → BleRestoredState → Task W D X
initial_task local_node_id world empty_peers config restored_state = record {
  world = world;
  is_listening = false;
  l2cap_channels = [];
  next_channel_id = 1;
  peers = empty_peers;
  sessions = [];
  local_node_id = local_node_id;
  local_psm = none;
  config = config;
  restored_state = restored_state;
  startup = default_startup;
  deferred_control_ingress = [];
}

-- `new_with_restored_state`; `world` and `empty_peers` are the radios and queues, and the directory,
-- that it creates.
unfoldable pub new_with_restored_state :
    {W D X : Type 0} → NodeId → W → D → BleConfig → BleRestoredState → Created W D X
new_with_restored_state local_node_id world empty_peers config restored_state =
    if config.queue.ingress_capacity == 0
    then err zero_ingress_capacity
    else if config.queue.command_capacity == 0
    then err zero_command_capacity
    else ok (initial_task local_node_id world empty_peers config restored_state)

abbrev resolved_node : Option PeerIdentityState → Option NodeId
resolved_node none = none
resolved_node (some (hint h)) = none
resolved_node (some (resolved node_id)) = some node_id

module _ {W D C X : Type 0} (h : Host W D C X) where
  unfoldable pub resolved_node_id_for_device : Task W D X → DeviceId → Option NodeId
  resolved_node_id_for_device t device_id =
      resolved_node (h.identity_state t.peers (peer_key device_id))

module _ {W D X : Type 0} where
  unfoldable pub egress_session_for_device : Task W D X → DeviceId → Option BleSession
  egress_session_for_device t device_id =
      find_map (λ p. egress_for_device p device_id) (values t.sessions)

  unfoldable pub take_channel_id : Task W D X → BleChannelId × Task W D X
  take_channel_id t =
      (t.next_channel_id, record t { next_channel_id = saturating_suc t.next_channel_id })
