-- ===== src/Link/Gatt/Locator.antt =====
-- What the receiving side recovers from an endpoint and from the PSM characteristic.
use jq_ble.Prelude.{
  ℕ, ◌^◌, ◌<◌, ◌≡◌, refl, true, Option, none, some, List, [], ◌∷◌, arith, and_then, ◌==◌, nat_eq,
  if◌then◌else◌, Bytes, All, IsByte, is_utf8, from_le_bytes, to_le_bytes, from_le_bytes-to_le_bytes,
}
use jq_ble.Core.Endpoints.{NodeId, DeviceId}
use jq_ble.Link.Gatt.{
  Psm, GattCharacteristic, psm_char_uuid, gatt_l2cap_service, gatt_fallback_service,
  parse_psm_value, gatt_endpoint, l2cap_endpoint, gatt_notify_fanout_endpoint,
  device_id_from_endpoint,
}

-- The device of both kinds of unicast endpoint is recovered at dispatch, as a device's text is
-- valid UTF-8, and the fanout endpoint is never taken for that of a device.
pub device_id_from_endpoint-endpoints :
    (d : DeviceId)
    → is_utf8 d.bytes ≡ true
    → (device_id_from_endpoint (gatt_endpoint d) ≡ some d)
      × (device_id_from_endpoint (l2cap_endpoint d) ≡ some d)
      × (device_id_from_endpoint gatt_notify_fanout_endpoint ≡ none)
unfolding device_id_from_endpoint gatt_endpoint l2cap_endpoint gatt_notify_fanout_endpoint
device_id_from_endpoint-endpoints d h = (rw h, rw h, refl)

-- The value of the characteristic with a given UUID, as a central reads it.
abbrev pub value_of : ℕ → List GattCharacteristic → Option Bytes
value_of uuid [] = none
value_of uuid (c ∷ cs) =
    let rest = value_of uuid cs in if c.uuid == uuid then some c.value else rest

parse_psm_value-to_le_bytes :
    (psm : Psm) → 0 < psm → psm < 256 ^ 2 → parse_psm_value (to_le_bytes 2 psm) ≡ some psm
unfolding parse_psm_value to_le_bytes
parse_psm_value-to_le_bytes psm pos lt = ground (arith, from_le_bytes-to_le_bytes 2 psm lt)

-- A central that reads the PSM characteristic of the service recovers the listener's PSM, if it is a
-- non-zero 16-bit number, and finds no such characteristic in the fallback service.
pub parse_psm_value-gatt_l2cap_service :
    (n : NodeId) (psm : Psm)
    → 0 < psm
    → psm < 65536
    → (and_then (value_of psm_char_uuid (gatt_l2cap_service n psm).characteristics) parse_psm_value
        ≡ some psm)
      × (value_of psm_char_uuid (gatt_fallback_service n).characteristics ≡ none)
unfolding gatt_l2cap_service gatt_fallback_service
parse_psm_value-gatt_l2cap_service n psm pos lt =
    (parse_psm_value-to_le_bytes psm pos (omega arith), refl)

-- Whatever a peer serves, an accepted PSM is a non-zero 16-bit number.
pub parse_psm_value-range :
    (bytes : Bytes) (psm : Psm)
    → All IsByte bytes
    → parse_psm_value bytes ≡ some psm
    → (0 < psm) × (psm < 65536)
unfolding parse_psm_value from_le_bytes
parse_psm_value-range [] psm h e = ground arith
parse_psm_value-range (a ∷ []) psm h e = ground arith
parse_psm_value-range (a ∷ b ∷ bs) psm h e = ground arith
