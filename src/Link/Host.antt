-- ===== src/Link/Host.antt =====
-- What the runtime task calls and this repository does not implement: the `blew` radios, the L2CAP
-- streams, and the mailboxes, peer directory and claims of `jacquard_host_support`. `W` is their
-- state together with the radio environment, `D` a peer directory, `C` an L2CAP stream and `X` the
-- part of a link that is only carried. An operation returns its result and the next state; a
-- failure is `none` or `false`, and a result that the source ignores is left out.
use jq_ble.Prelude.{ℕ, Bool, Option, List, Bytes, ◌⊎◌}
use jq_ble.Core.Endpoints.{NodeId, DeviceId, BlePeerKey, LinkEndpoint}
use jq_ble.Core.Events.{Link, LinkRuntimeState, TransportIngressEvent}
use jq_ble.Link.Gatt.{Uuid, Psm, GattService}
use jq_ble.Link.Sessions.{BleChannelId}
use jq_ble.Link.Startup.{BlewError}

-- The targets that the source is compiled for differently.
pub data Platform : Type 0 where
  linux android other : Platform

pub data BleScanMode : Type 0 where
  low_latency low_power : BleScanMode

pub data TransportIngressClass : Type 0 where
  payload control : TransportIngressClass

pub record DiscoveredPeerHint : Type 0 where
  pub device_id : DeviceId
  pub node_id_prefix : Bytes
  pub advertised_gatt : Bool
  pub advertised_l2cap : Bool

pub data PeerIdentityState : Type 0 where
  hint : DiscoveredPeerHint → PeerIdentityState
  resolved : NodeId → PeerIdentityState

pub record Host (W D C X : Type 0) : Type 0 where
  pub platform : Platform
  -- `Central`.
  pub central_is_powered : W → Option Bool × W
  pub start_scan : List Uuid → BleScanMode → W → Option BlewError × W
  pub connect : DeviceId → W → W
  pub disconnect : DeviceId → W → W
  pub refresh : DeviceId → W → W
  pub read_characteristic : DeviceId → Uuid → W → Option Bytes × W
  pub write_characteristic : DeviceId → Uuid → Bytes → W → W
  pub subscribe_characteristic : DeviceId → Uuid → W → W
  pub open_l2cap_channel : DeviceId → Psm → W → Option C × W
  -- `Peripheral`.
  pub peripheral_is_powered : W → Option Bool × W
  pub l2cap_listener : W → (Psm ⊎ BlewError) × W
  pub add_service : GattService → W → Option BlewError × W
  pub start_advertising : Bytes → List Uuid → W → Option BlewError × W
  pub notify_characteristic : DeviceId → Uuid → Bytes → W → W
  -- An L2CAP stream, the tasks that serve it, and the sender of its outbound queue.
  pub write_all : C → Bytes → W → Bool × W
  pub flush : C → W → Bool × W
  pub read_exact : C → ℕ → W → Option Bytes × W
  pub spawn_tasks : BleChannelId → C → W → W
  pub outbound_send : BleChannelId → Bytes → W → Bool × W
  -- `TransportIngressSender::emit`; `false` is an error.
  pub emit : TransportIngressClass → TransportIngressEvent X → W → Bool × W
  -- `PeerDirectory`.
  pub identity_state : D → BlePeerKey → Option PeerIdentityState
  pub upsert_hint : D → BlePeerKey → DiscoveredPeerHint → D
  pub resolve : D → BlePeerKey → NodeId → D
  pub remove_peer : D → BlePeerKey → Option PeerIdentityState × D
  -- `PendingClaims`; a guard releases its claim when it goes out of scope.
  pub is_claimed : BlePeerKey → W → Bool
  pub try_claim : BlePeerKey → W → Bool × W
  pub release_claim : BlePeerKey → W → W
  -- `LinkBuilder` with the profile that `link_carrier` gives it: the round-trip estimate.
  pub build_link : LinkEndpoint → ℕ → LinkRuntimeState → Link X
