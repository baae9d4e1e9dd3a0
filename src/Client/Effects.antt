-- ===== src/Client/Effects.antt =====
-- crates/jq-client/src/effects.rs, and `MonotonicBleTickSource` of crates/jq-client/src/bridge.rs. `V`
-- is a stamped route event; the lock is held for one operation at a time.
pub mod Clocks
use jq_ble.Prelude.{
  ℕ, Option, List, [], ◌∷◌, ◌++◌, Bytes, Map, get, insert, remove, saturating_suc, nat_eq, list_eq,
  nat_order, list_order,
}

pub record BleRuntimeState (V : Type 0) : Type 0 where
  pub now_tick : ℕ
  pub next_tick : ℕ
  pub next_order : ℕ
  pub storage : Map Bytes Bytes
  pub events : List V

module _ {V : Type 0} where
  unfoldable pub new_effects : ℕ → BleRuntimeState V
  new_effects initial_tick = record {
    now_tick = initial_tick;
    next_tick = initial_tick;
    next_order = 0;
    storage = [];
    events = [];
  }

  unfoldable pub advance_tick : BleRuntimeState V → ℕ × BleRuntimeState V
  advance_tick s =
      (s.next_tick, record s { now_tick = s.next_tick; next_tick = saturating_suc s.next_tick })

  unfoldable pub next_order_stamp : BleRuntimeState V → ℕ × BleRuntimeState V
  next_order_stamp s =
      (saturating_suc s.next_order, record s { next_order = saturating_suc s.next_order })

  unfoldable pub load_bytes : Bytes → BleRuntimeState V → Option Bytes
  load_bytes key s = get key s.storage

  unfoldable pub store_bytes : Bytes → Bytes → BleRuntimeState V → BleRuntimeState V
  store_bytes key value s = record s { storage = insert key value s.storage }

  unfoldable pub remove_bytes : Bytes → BleRuntimeState V → BleRuntimeState V
  remove_bytes key s = record s { storage = remove key s.storage }

  unfoldable pub record_route_event : V → BleRuntimeState V → BleRuntimeState V
  record_route_event event s = record s { events = s.events ++ event ∷ [] }

pub record MonotonicBleTickSource : Type 0 where
  pub next_tick : ℕ
  pub next_order : ℕ

unfoldable pub new_tick_source : ℕ → MonotonicBleTickSource
new_tick_source initial_tick = record { next_tick = initial_tick; next_order = 0 }

unfoldable pub source_advance_tick : MonotonicBleTickSource → ℕ × MonotonicBleTickSource
source_advance_tick s = (s.next_tick, record s { next_tick = saturating_suc s.next_tick })

unfoldable pub source_next_order_stamp : MonotonicBleTickSource → ℕ × MonotonicBleTickSource
source_next_order_stamp s =
    (saturating_suc s.next_order, record s { next_order = saturating_suc s.next_order })
