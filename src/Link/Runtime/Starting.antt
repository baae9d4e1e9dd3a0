-- ===== src/Link/Runtime/Starting.antt =====
-- `try_startup` and the steps below it.
pub mod Progress
pub mod Completion
use jq_ble.Prelude.{
  Bool, true, false, Option, none, some, [], ◌∷◌, nat_eq, if◌then◌else◌, contains, inl, inr, codes,
}
use jq_ble.Link.Gatt.{GattService, gatt_fallback_service, gatt_l2cap_service}
use jq_ble.Link.Startup.{
  BlewError, StartupStep, from_start_result, peripheral_power_changed, central_power_changed,
  powered_off,
}
use jq_ble.Link.Host.{Host}
use jq_ble.Link.Runtime.State.{Task}

abbrev pub unwrap_false : Option Bool → Bool
unwrap_false none = false
unwrap_false (some b) = b

-- Which steps call the radio: the early returns of `try_start_*`.
abbrev pub listener_due : StartupStep → Bool
listener_due StartupStep.pending = true
listener_due StartupStep.retry = true
listener_due _ = false

abbrev pub step_due : StartupStep → Bool
step_due StartupStep.started = false
step_due StartupStep.waiting_for_power = false
step_due _ = true

abbrev pub is_started : StartupStep → Bool
is_started StartupStep.started = true
is_started _ = false

module _ {W D C X : Type 0} (h : Host W D C X) where
  unfoldable pub startup_gatt_service : Task W D X → GattService
  startup_gatt_service t = elim t.local_psm [
    | none ↦ gatt_fallback_service t.local_node_id
    | some psm ↦ gatt_l2cap_service t.local_node_id psm
  ]

  unfoldable pub start_l2cap_listener : Task W D X → Task W D X
  start_l2cap_listener t =
      let (answer, w) = h.l2cap_listener t.world in
      let t1 = record t { world = w } in
      elim answer [
        | inl psm ↦ record t1 {
          local_psm = some psm;
          is_listening = true;
          startup = record t1.startup { l2cap_listener = StartupStep.started };
        }
        | inr BlewError.not_supported ↦ record t1 {
          startup = record t1.startup { l2cap_listener = StartupStep.unsupported };
        }
        | inr _ ↦ record t1 { startup = record t1.startup { l2cap_listener = StartupStep.retry } }
      ]

  unfoldable pub try_start_l2cap_listener : Task W D X → Task W D X
  unfolding start_l2cap_listener
  try_start_l2cap_listener t =
      if listener_due t.startup.l2cap_listener then start_l2cap_listener t else t

  unfoldable pub start_gatt_service : Task W D X → Task W D X
  start_gatt_service t =
      let service = startup_gatt_service t in
      if contains t.restored_state.peripheral_service_uuids service.uuid
      then record t { startup = record t.startup { gatt_service = StartupStep.started } }
      else let (answer, w) = h.add_service service t.world in
        record t {
          world = w;
          startup = record t.startup { gatt_service = from_start_result answer };
        }

  unfoldable pub try_start_gatt_service : Task W D X → Task W D X
  unfolding start_gatt_service
  try_start_gatt_service t =
      if step_due t.startup.gatt_service
      then if listener_due t.startup.l2cap_listener then t else start_gatt_service t
      else t

  unfoldable pub advertise : Task W D X → Task W D X
  advertise t =
      let service = startup_gatt_service t in
      let (answer, w) = h.start_advertising (codes "jq-ble") (service.uuid ∷ []) t.world in
      record t { world = w; startup = record t.startup { advertising = from_start_result answer } }

  unfoldable pub try_start_advertising : Task W D X → Task W D X
  unfolding advertise
  try_start_advertising t =
      if step_due t.startup.advertising
      then if is_started t.startup.gatt_service then advertise t else t
      else t

  unfoldable pub try_start_scan : Task W D X → Task W D X
  try_start_scan t =
      let scan = t.config.scan in
      let (answer, w) = h.start_scan scan.scan_service_uuids scan.scan_mode t.world in
      if step_due t.startup.scan
      then record t { world = w; startup = record t.startup { scan = from_start_result answer } }
      else t

  unfoldable pub try_startup_peripheral : Task W D X → Task W D X
  try_startup_peripheral t =
      let (powered, w) = h.peripheral_is_powered t.world in
      let t1 = record t { world = w } in
      if unwrap_false powered
      then try_start_advertising (try_start_gatt_service (try_start_l2cap_listener t1))
      else record t1 { startup = peripheral_power_changed t1.startup powered_off }

  unfoldable pub try_startup_central : Task W D X → Task W D X
  try_startup_central t =
      let (powered, w) = h.central_is_powered t.world in
      let t1 = record t { world = w } in
      if unwrap_false powered
      then try_start_scan t1
      else record t1 { startup = central_power_changed t1.startup powered_off }

  unfoldable pub try_startup : Task W D X → Task W D X
  unfolding try_startup_peripheral try_startup_central
  try_startup t = try_startup_central (try_startup_peripheral t)
