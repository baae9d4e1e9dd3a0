-- ===== src/Client/Effects/Clocks.antt =====
-- The client's effects as a clock: crates/jq-client/src/effects.rs beside `MonotonicBleTickSource` of
-- crates/jq-client/src/bridge.rs.
use jq_ble.Prelude.{
  ℕ, ◌≡◌, refl, ap, List, [], ◌∷◌, Bytes, saturating_suc, nat_eq, list_eq, nat_order, list_order,
}
use jq_ble.Client.Effects.{
  BleRuntimeState, new_effects, advance_tick, next_order_stamp, store_bytes, remove_bytes,
  record_route_event, MonotonicBleTickSource, new_tick_source, source_advance_tick,
  source_next_order_stamp,
}

-- A call of the effects; the router stores and logs between the calls of the bridge.
pub data Call (V : Type 0) : Type 0 where
  tick stamp : Call V
  store : Bytes → Bytes → Call V
  erase : Bytes → Call V
  log : V → Call V

module _ {V : Type 0} where
  -- The answers of the clock to the calls, in order.
  abbrev pub answers : BleRuntimeState V → List (Call V) → List ℕ
  unfolding advance_tick next_order_stamp store_bytes remove_bytes record_route_event
  answers s [] = []
  answers s (tick ∷ calls) = (advance_tick s).0 ∷ answers (advance_tick s).1 calls
  answers s (stamp ∷ calls) = (next_order_stamp s).0 ∷ answers (next_order_stamp s).1 calls
  answers s (store key value ∷ calls) = answers (store_bytes key value s) calls
  answers s (erase key ∷ calls) = answers (remove_bytes key s) calls
  answers s (log event ∷ calls) = answers (record_route_event event s) calls

  -- Those of the plain source, to which the other calls do nothing.
  abbrev pub source_answers : MonotonicBleTickSource → List (Call V) → List ℕ
  unfolding source_advance_tick source_next_order_stamp
  source_answers s [] = []
  source_answers s (tick ∷ calls) =
      (source_advance_tick s).0 ∷ source_answers (source_advance_tick s).1 calls
  source_answers s (stamp ∷ calls) =
      (source_next_order_stamp s).0 ∷ source_answers (source_next_order_stamp s).1 calls
  source_answers s (store key value ∷ calls) = source_answers s calls
  source_answers s (erase key ∷ calls) = source_answers s calls
  source_answers s (log event ∷ calls) = source_answers s calls

  abbrev clock_of : BleRuntimeState V → MonotonicBleTickSource
  clock_of s = record { next_tick = s.next_tick; next_order = s.next_order }

  answers_from :
      (calls : List (Call V)) (s : BleRuntimeState V)
      → answers s calls ≡ source_answers (clock_of s) calls
  unfolding answers source_answers advance_tick next_order_stamp store_bytes remove_bytes
      record_route_event source_advance_tick source_next_order_stamp
  answers_from [] s = refl
  answers_from (tick ∷ calls) s = ap (◌∷◌ s.next_tick) (answers_from calls (advance_tick s).1)
  answers_from (stamp ∷ calls) s =
      ap (◌∷◌ (saturating_suc s.next_order)) (answers_from calls (next_order_stamp s).1)
  answers_from (store key value ∷ calls) s = answers_from calls (store_bytes key value s)
  answers_from (erase key ∷ calls) s = answers_from calls (remove_bytes key s)
  answers_from (log event ∷ calls) s = answers_from calls (record_route_event event s)

  -- The clock that the client shares between its bridge and its router answers every sequence of calls
  -- as the bridge's own tick source does: storing bytes and logging events do not disturb it.
  pub answers-source_answers :
      (initial : ℕ) (calls : List (Call V))
      → answers (new_effects initial) calls ≡ source_answers (new_tick_source initial) calls
  unfolding new_effects new_tick_source
  answers-source_answers initial calls = answers_from calls (new_effects initial)
