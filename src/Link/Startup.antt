-- ===== src/Link/Startup.antt =====
-- crates/jq-link-profile/src/startup.rs: how far each part of the radio start has come.
use jq_ble.Prelude.{Bool, true, false, ◌||◌, Option, none, some, ℕ}

-- The errors of `blew` that the source tells apart.
pub data BlewError : Type 0 where
  already_advertising not_supported : BlewError
  other : ℕ → BlewError

pub data StartupStep : Type 0 where
  pending waiting_for_power retry started unsupported : StartupStep

-- `Ok` is `none`.
unfoldable pub from_start_result : Option BlewError → StartupStep
from_start_result none = StartupStep.started
from_start_result (some BlewError.already_advertising) = StartupStep.started
from_start_result (some _) = StartupStep.retry

pub record BleStartupState : Type 0 where
  pub l2cap_listener : StartupStep
  pub gatt_service : StartupStep
  pub advertising : StartupStep
  pub scan : StartupStep

abbrev pub default_startup : BleStartupState
default_startup = record {
  l2cap_listener = StartupStep.pending;
  gatt_service = StartupStep.pending;
  advertising = StartupStep.pending;
  scan = StartupStep.pending;
}

pub data AdapterPowerState : Type 0 where
  powered_on powered_off : AdapterPowerState

abbrev pub power_state : Bool → AdapterPowerState
power_state true = powered_on
power_state false = powered_off

abbrev step_for : AdapterPowerState → StartupStep
step_for powered_on = StartupStep.pending
step_for powered_off = StartupStep.waiting_for_power

unfoldable pub central_power_changed : BleStartupState → AdapterPowerState → BleStartupState
central_power_changed s state = record s { scan = step_for state }

-- A listener that is not supported stays so.
abbrev listener_after : StartupStep → StartupStep → StartupStep
listener_after StartupStep.unsupported next = StartupStep.unsupported
listener_after _ next = next

unfoldable pub peripheral_power_changed : BleStartupState → AdapterPowerState → BleStartupState
peripheral_power_changed s state = record s {
  l2cap_listener = listener_after s.l2cap_listener (step_for state);
  gatt_service = step_for state;
  advertising = step_for state;
}

abbrev is_retry : StartupStep → Bool
is_retry StartupStep.retry = true
is_retry _ = false

unfoldable pub retry_due : BleStartupState → Bool
retry_due s =
    is_retry s.l2cap_listener
    || is_retry s.gatt_service
    || is_retry s.advertising
    || is_retry s.scan
