-- ===== src/Link/Runtime/Starting/Progress.antt =====
-- The order in which the parts of the radio start.
use jq_ble.Prelude.{
  ◌≡◌, ◌≢◌, Bool, Option, none, some, [], ◌∷◌, codes, true, false, arith, Bool-cases, inl, inr,
}
use jq_ble.Link.Startup.{
  BleStartupState, StartupStep, BlewError, from_start_result, AdapterPowerState, powered_on,
  powered_off, central_power_changed, peripheral_power_changed,
}
use jq_ble.Link.Host.{Host}
use jq_ble.Link.Runtime.State.{Task}
use jq_ble.Link.Runtime.Starting.{
  startup_gatt_service, try_start_l2cap_listener, try_start_gatt_service, try_start_advertising,
  try_start_scan, try_startup_peripheral, try_startup_central, try_startup, unwrap_false,
}

-- The listener has started, or the platform has none.
abbrev pub is_decided : StartupStep → Bool
is_decided StartupStep.started = true
is_decided StartupStep.unsupported = true
is_decided _ = false

-- Advertising runs on a registered service only, and the service is registered, or has been tried,
-- only with the listener decided. A listener that waits for power has its service waiting too, and so has
-- advertising.
pub record IsOrdered (s : BleStartupState) : Type 0 where
  pub advertised : s.advertising ≡ StartupStep.started → s.gatt_service ≡ StartupStep.started
  pub retried : s.advertising ≡ StartupStep.retry → s.gatt_service ≡ StartupStep.started
  pub registered : s.gatt_service ≡ StartupStep.started → is_decided s.l2cap_listener ≡ true
  pub attempted : s.gatt_service ≡ StartupStep.retry → is_decided s.l2cap_listener ≡ true
  pub waits :
      s.l2cap_listener ≡ StartupStep.waiting_for_power
      → s.gatt_service ≡ StartupStep.waiting_for_power
  pub paired :
      s.advertising ≡ StartupStep.waiting_for_power → s.gatt_service ≡ StartupStep.waiting_for_power

pub power_changed-IsOrdered :
    (s : BleStartupState) (p : AdapterPowerState)
    → IsOrdered s
    → IsOrdered (central_power_changed s p) × IsOrdered (peripheral_power_changed s p)
unfolding central_power_changed peripheral_power_changed
power_changed-IsOrdered s powered_on o = ground arith
power_changed-IsOrdered s powered_off o = ground arith

-- A step that was attempted does not wait for power.
attempted-waits :
    (answer : Option BlewError) → from_start_result answer ≢ StartupStep.waiting_for_power
unfolding from_start_result
attempted-waits none same = cc
attempted-waits (some BlewError.already_advertising) same = cc
attempted-waits (some BlewError.not_supported) same = cc
attempted-waits (some (BlewError.other code)) same = cc

module _ {W D C X : Type 0} (h : Host W D C X) where
  listener-IsOrdered :
      (t : Task W D X) → IsOrdered t.startup → IsOrdered (try_start_l2cap_listener h t).startup
  unfolding try_start_l2cap_listener
  listener-IsOrdered t o = ground arith

  service-IsOrdered :
      (t : Task W D X) → IsOrdered t.startup → IsOrdered (try_start_gatt_service h t).startup
  unfolding try_start_gatt_service
  service-IsOrdered t o = ground arith

  advertising-IsOrdered :
      (t : Task W D X) → IsOrdered t.startup → IsOrdered (try_start_advertising h t).startup
  unfolding try_start_advertising
  advertising-IsOrdered t o = ground (
    arith,
    attempted-waits
        (h.start_advertising (codes "jq-ble") ((startup_gatt_service h t).uuid ∷ []) t.world).0,
  )

  scan-IsOrdered : (t : Task W D X) → IsOrdered t.startup → IsOrdered (try_start_scan h t).startup
  unfolding try_start_scan
  scan-IsOrdered t o = ground arith

  peripheral-IsOrdered :
      (t : Task W D X) → IsOrdered t.startup → IsOrdered (try_startup_peripheral h t).startup
  unfolding try_startup_peripheral
  peripheral-IsOrdered t o =
      let powered = (h.peripheral_is_powered t.world).0 in
      let t1 = record t { world = (h.peripheral_is_powered t.world).1 } in
      elim (Bool-cases (unwrap_false powered)) [
        | inl on ↦ rw on (
            advertising-IsOrdered _
              (service-IsOrdered (try_start_l2cap_listener h t1) (listener-IsOrdered t1 o)))
        | inr off ↦ rw off (power_changed-IsOrdered t.startup powered_off o).1
      ]

  central-IsOrdered :
      (t : Task W D X) → IsOrdered t.startup → IsOrdered (try_startup_central h t).startup
  unfolding try_startup_central
  central-IsOrdered t o =
      let powered = (h.central_is_powered t.world).0 in
      let t1 = record t { world = (h.central_is_powered t.world).1 } in
      elim (Bool-cases (unwrap_false powered)) [
        | inl on ↦ rw on (scan-IsOrdered t1 o)
        | inr off ↦ rw off (power_changed-IsOrdered t.startup powered_off o).0
      ]

  -- Whatever the radios answer, a startup attempt and a change of power keep the order of the start:
  -- nothing is advertised before the service is registered, no service is registered before the L2CAP
  -- listener has started or proved unsupported, and none stays registered while the listener or the
  -- advertising waits for power.
  pub try_startup-IsOrdered :
      (t : Task W D X) (p : AdapterPowerState)
      → IsOrdered t.startup
      → IsOrdered (try_startup h t).startup
        × IsOrdered (central_power_changed t.startup p)
        × IsOrdered (peripheral_power_changed t.startup p)
  unfolding try_startup
  try_startup-IsOrdered t p o =
      let changed = power_changed-IsOrdered t.startup p o in
      (
        central-IsOrdered (try_startup_peripheral h t) (peripheral-IsOrdered t o),
        changed.0,
        changed.1,
      )
