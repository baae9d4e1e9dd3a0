-- ===== src/Link/Gatt.antt =====
-- crates/jq-link-profile/src/gatt.rs and the endpoint helpers of session.rs: service shape, UUIDs,
-- discovery hints, PSM values and locators. A `Uuid` is its 128-bit number.
pub mod Hint
pub mod Locator
use Prim.Native.Nat.{bit_or}
use jq_ble.Prelude.{
  ℕ, Bool, true, false, Option, none, some, List, [], ◌∷◌, ◌++◌, Bytes, ◌==◌, nat_eq, list_eq, not,
  if◌then◌else◌, ◌&&◌, take, drop, find_map, length, ltb, codes, is_utf8, from_be_bytes,
  to_be_bytes, from_le_bytes, to_le_bytes,
}
use jq_ble.Core.Endpoints.{
  NodeId, DeviceId, TransportKind, EndpointLocator, LinkEndpoint, scoped_bytes,
}

abbrev pub Uuid : Type 0
Uuid = ℕ

abbrev pub Psm : Type 0
Psm = ℕ

abbrev pub identity_service_uuid : Uuid
identity_service_uuid = 0x6a617100_8e45_4c2c_b3a5_331f3098b5c2

abbrev pub node_id_char_uuid : Uuid
node_id_char_uuid = 0x6a617101_8e45_4c2c_b3a5_331f3098b5c2

abbrev pub c2p_char_uuid : Uuid
c2p_char_uuid = 0x6a617102_8e45_4c2c_b3a5_331f3098b5c2

abbrev pub p2c_char_uuid : Uuid
p2c_char_uuid = 0x6a617103_8e45_4c2c_b3a5_331f3098b5c2

abbrev pub psm_char_uuid : Uuid
psm_char_uuid = 0x6a617104_8e45_4c2c_b3a5_331f3098b5c2

abbrev pub discovery_hint_namespace_prefix : ℕ
discovery_hint_namespace_prefix = 0x6a617200_0000_0000_0000_000000000000

abbrev hint_namespace : Bytes
hint_namespace = b'j' ∷ b'a' ∷ b'r' ∷ 0 ∷ []

abbrev padding : Bytes
padding = 0 ∷ 0 ∷ 0 ∷ 0 ∷ 0 ∷ 0 ∷ []

-- `bytes[0], …, bytes[5]` of the 32 bytes.
unfoldable pub node_id_prefix : NodeId → Bytes
node_id_prefix node_id = take 6 node_id.bytes

unfoldable pub discovery_service_uuid : NodeId → Uuid
discovery_service_uuid node_id =
    bit_or discovery_hint_namespace_prefix
      (from_be_bytes (hint_namespace ++ node_id_prefix node_id ++ padding))

unfoldable pub hint_of_uuid : Uuid → Option Bytes
hint_of_uuid uuid =
    let bytes = to_be_bytes 16 uuid in
    if not (take 4 bytes == hint_namespace) then none else some (take 6 (drop 4 bytes))

unfoldable pub parse_discovery_hint : List Uuid → Option Bytes
parse_discovery_hint services = find_map hint_of_uuid services

pub data CharacteristicProperties : Type 0 where
  read write write_without_response notify : CharacteristicProperties
  both : CharacteristicProperties → CharacteristicProperties → CharacteristicProperties

pub data AttributePermissions : Type 0 where
  read write : AttributePermissions

pub record GattCharacteristic : Type 0 where
  pub uuid : Uuid
  pub properties : CharacteristicProperties
  pub permissions : AttributePermissions
  pub value : Bytes

pub record GattService : Type 0 where
  pub uuid : Uuid
  pub primary : Bool
  pub characteristics : List GattCharacteristic

unfoldable pub advertised_hint_service : NodeId → GattService
advertised_hint_service node_id = record {
  uuid = discovery_service_uuid node_id;
  primary = false;
  characteristics = [];
}

node_id_characteristic : NodeId → GattCharacteristic
node_id_characteristic node_id = record {
  uuid = node_id_char_uuid;
  properties = CharacteristicProperties.read;
  permissions = AttributePermissions.read;
  value = node_id.bytes;
}

unfoldable pub identity_gatt_service : NodeId → GattService
unfolding node_id_characteristic
identity_gatt_service node_id = record {
  uuid = identity_service_uuid;
  primary = true;
  characteristics = node_id_characteristic node_id ∷ [];
}

psm_characteristics : Option Psm → List GattCharacteristic
psm_characteristics none = []
psm_characteristics (some psm) =
    record {
      uuid = psm_char_uuid;
      properties = CharacteristicProperties.read;
      permissions = AttributePermissions.read;
      value = to_le_bytes 2 psm;
    }
    ∷ []

unfoldable pub transport_gatt_service : NodeId → Option Psm → GattService
unfolding node_id_characteristic psm_characteristics
transport_gatt_service node_id psm = record {
  uuid = identity_service_uuid;
  primary = true;
  characteristics =
      (node_id_characteristic node_id
        ∷ record {
          uuid = c2p_char_uuid;
          properties =
              CharacteristicProperties.both CharacteristicProperties.write
                CharacteristicProperties.write_without_response;
          permissions = AttributePermissions.write;
          value = [];
        }
        ∷ record {
          uuid = p2c_char_uuid;
          properties = CharacteristicProperties.notify;
          permissions = AttributePermissions.read;
          value = [];
        }
        ∷ [])
      ++ psm_characteristics psm;
}

unfoldable pub gatt_fallback_service : NodeId → GattService
unfolding transport_gatt_service
gatt_fallback_service node_id = transport_gatt_service node_id none

unfoldable pub gatt_l2cap_service : NodeId → Psm → GattService
unfolding transport_gatt_service
gatt_l2cap_service node_id psm = transport_gatt_service node_id (some psm)

abbrev ble_scope : Bytes
ble_scope = codes "ble"

abbrev notify_scope : Bytes
notify_scope = codes "ble-notify"

unfoldable pub ble_locator : DeviceId → EndpointLocator
ble_locator device_id = scoped_bytes ble_scope device_id.bytes

unfoldable pub gatt_endpoint : DeviceId → LinkEndpoint
unfolding ble_locator
gatt_endpoint device_id = record {
  transport_kind = TransportKind.ble_gatt;
  locator = ble_locator device_id;
  mtu_bytes = 512;
}

unfoldable pub gatt_notify_fanout_endpoint : LinkEndpoint
gatt_notify_fanout_endpoint = record {
  transport_kind = TransportKind.ble_gatt;
  locator = scoped_bytes notify_scope (to_be_bytes 16 p2c_char_uuid);
  mtu_bytes = 512;
}

unfoldable pub l2cap_endpoint : DeviceId → LinkEndpoint
unfolding ble_locator
l2cap_endpoint device_id = record {
  transport_kind = TransportKind.ble_l2cap;
  locator = ble_locator device_id;
  mtu_bytes = 1472;
}

unfoldable pub hint_matches_node_id : Bytes → NodeId → Bool
hint_matches_node_id hint node_id = hint == node_id_prefix node_id

unfoldable pub parse_psm_value : Bytes → Option Psm
parse_psm_value bytes =
    let psm = from_le_bytes (take 2 bytes) in
    if ltb (length bytes) 2 then none else if psm == 0 then none else some psm

device_id_from_locator : EndpointLocator → Option DeviceId
device_id_from_locator (scoped_bytes scope bytes) =
    if scope == ble_scope && is_utf8 bytes then some (record { bytes = bytes }) else none
device_id_from_locator _ = none

unfoldable pub device_id_from_endpoint : LinkEndpoint → Option DeviceId
unfolding device_id_from_locator
device_id_from_endpoint endpoint = device_id_from_locator endpoint.locator
