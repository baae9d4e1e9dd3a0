-- ===== src/Link/Runtime/Starting/Completion.antt =====
-- A start in which the radio agrees to every step.
use jq_ble.Prelude.{◌≡◌, true, none, some, inl, List, Bytes, nat_eq}
use jq_ble.Link.Gatt.{Psm, Uuid, GattService}
use jq_ble.Link.Startup.{BleStartupState, StartupStep}
use jq_ble.Link.Host.{Host, BleScanMode}

-- Both adapters are on, and the radio refuses nothing.
pub record IsWilling {W D C X : Type 0} (h : Host W D C X) : Type 0 where
  pub peripheral_on : (w : W) → (h.peripheral_is_powered w).0 ≡ some true
  pub central_on : (w : W) → (h.central_is_powered w).0 ≡ some true
  pub psm : W → Psm
  pub listens : (w : W) → (h.l2cap_listener w).0 ≡ inl (psm w)
  pub adds : (s : GattService) (w : W) → (h.add_service s w).0 ≡ none
  pub advertises :
      (name : Bytes) (us : List Uuid) (w : W) → (h.start_advertising name us w).0 ≡ none
  pub scans : (us : List Uuid) (m : BleScanMode) (w : W) → (h.start_scan us m w).0 ≡ none

abbrev pub all_started : BleStartupState
all_started = record {
  l2cap_listener = StartupStep.started;
  gatt_service = StartupStep.started;
  advertising = StartupStep.started;
  scan = StartupStep.started;
}
