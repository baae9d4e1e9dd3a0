-- ===== src/Client/Bridge/Runs.antt =====
-- crates/jq-client/src/bridge.rs, `advance_round` round after round.
use jq_ble.Prelude.{
  ℕ, ◌≡◌, ◌≢◌, refl, ap, ◌⊎◌, true, false, Option, none, some, List, [], ◌∷◌, Result, ok, err, inl,
  inr,
}
use jq_ble.Prelude.Actions.{continue, Ends, Ends-map, Ends-bind}
use jq_ble.Core.Endpoints.{NodeId}
use jq_ble.Core.Events.{TransportIngressEvent, TransportObservation}
use jq_ble.Link.Cast.{UnicastCast}
use jq_ble.Client.Bridge.{
  BleBridgeError, panic, BridgeHost, BleBridgeProgress, BleHostBridge, with_clock, is_full,
  drop_one, or_panic, push, observe_transport_ingress, stage_event, stage_events,
  stage_transport_ingress, transport_result, advance_round,
}
use jq_ble.Client.Bridge.Closing.{taking, taking-Ends}

module _ {E W X P R T : Type 0} (host : BridgeHost W X P R T) (cast : UnicastCast E X) where
  abbrev IsEmpty : BleHostBridge W X → Type 0
  IsEmpty b = b.pending_transport_observations ≡ []

  abbrev Cleared : Result (BleBridgeError R T) (BleBridgeProgress X P) × BleHostBridge W X → Type 0
  Cleared = Ends (λ p b. IsEmpty b) (λ e b. (e ≡ panic) ⊎ IsEmpty b)

  -- The staging fails in a panic only.
  abbrev OrPanics : Result (BleBridgeError R T) (Unit {0}) × BleHostBridge W X → Type 0
  OrPanics = Ends (λ done b. Unit) (λ e b. e ≡ panic)

  push-OrPanics :
      (b : BleHostBridge W X) (o : Option (TransportObservation X))
      → OrPanics (continue (push host cast) (or_panic host cast o b))
  push-OrPanics b none = refl
  push-OrPanics b (some o) = tt

  stage_event-OrPanics :
      (tick : ℕ) (event : TransportIngressEvent X) (b : BleHostBridge W X)
      → OrPanics (stage_event host cast tick event b)
  unfolding stage_event observe_transport_ingress
  stage_event-OrPanics tick (TransportIngressEvent.payload_received from endpoint payload) b =
      elim (is_full host cast b)
        as (λ full. OrPanics (elim full [
          | true ↦ drop_one host cast b
          | false ↦ continue (push host cast) (
              observe_transport_ingress host cast
                (TransportIngressEvent.payload_received from endpoint payload) tick b)
        ])) [ true ↦ tt | false ↦ tt ]
  stage_event-OrPanics tick (TransportIngressEvent.link_observed remote link source evidence origin)
        b =
      let (order, w) = host.next_order_stamp b.world in
      elim (is_full host cast b)
        as (λ full. OrPanics (elim full [
          | true ↦ drop_one host cast b
          | false ↦ continue (push host cast) (
              observe_transport_ingress host cast
                (TransportIngressEvent.link_observed remote link source evidence origin) tick b)
        ])) [ true ↦ tt | false ↦ push-OrPanics (record b { world = w }) _ ]

  stage_events-OrPanics :
      (tick : ℕ) (events : List (TransportIngressEvent X)) (b : BleHostBridge W X)
      → OrPanics (stage_events host cast tick events b)
  unfolding stage_events
  stage_events-OrPanics tick [] b = tt
  stage_events-OrPanics tick (event ∷ events) b =
      Ends-bind (λ done b. Unit) (λ done b. Unit) (λ e b. e ≡ panic)
        (stage_event host cast tick event b) (λ done. stage_events host cast tick events)
        (stage_event-OrPanics tick event b) (λ done b1 d. stage_events-OrPanics tick events b1)

  taking-Cleared :
      (snapshot : ℕ) (r : Result (BleBridgeError R T) (Unit {0}) × BleHostBridge W X)
      → Ends (λ done b. Unit) (λ e b. (e ≡ panic) ⊎ IsEmpty b) r
      → Cleared (continue (λ done. taking host cast snapshot) r)
  taking-Cleared snapshot r h =
      Ends-bind (λ done b. Unit) (λ p b. IsEmpty b) (λ e b. (e ≡ panic) ⊎ IsEmpty b) r
        (λ done. taking host cast snapshot) h
        (λ done b2 d.
          Ends-map (λ p b' c. c.cleared) (λ e b' halts. inr halts.1) (taking host cast snapshot b2)
            (taking-Ends host cast snapshot b2))

  advance_round-Cleared : (b : BleHostBridge W X) → IsEmpty b → Cleared (advance_round host cast b)
  unfolding advance_round stage_transport_ingress
  advance_round-Cleared b empty =
      let (tick, w) = host.advance_tick b.world in
      taking-Cleared (host.snapshot w) _ (drained tick (host.drain_raw_ingress w))
    where
      drained :
          (tick : ℕ) (r : Result T (List (TransportIngressEvent X)) × W)
          → Ends
              (λ done b. Unit)
              (λ e b. (e ≡ panic) ⊎ IsEmpty b)
              (continue (stage_events host cast tick) (transport_result host cast b r))
      drained tick (ok events, w) =
          Ends-map (λ done b2 d. tt) (λ e b2 same. inl same)
            (stage_events host cast tick events (record b { world = w }))
            (stage_events-OrPanics tick events (record b { world = w }))
      drained tick (err e, w) = inr empty

  -- The bridges that rounds lead to, failed rounds included; a panic ends the task.
  pub data Runs : BleHostBridge W X → Type 0 where
    initial : (id : NodeId) (w : W) (capacity : ℕ) → Runs (with_clock id w capacity)
    next :
        (b : BleHostBridge W X)
        → Runs b
        → (advance_round host cast b).0 ≢ err panic
        → Runs (advance_round host cast b).1

  ended-IsEmpty :
      (r : Result (BleBridgeError R T) (BleBridgeProgress X P) × BleHostBridge W X)
      → Cleared r
      → r.0 ≢ err panic
      → IsEmpty r.1
  ended-IsEmpty (ok p, b) h calm = h
  ended-IsEmpty (err e, b) (inl same) calm = absurd (calm (ap err same))
  ended-IsEmpty (err e, b) (inr empty) calm = empty

  -- No observation is pending between two rounds: whether a round succeeds or fails, at the drain, the
  -- router or the flush, it leaves none of what it staged to the next round.
  pub Runs-IsEmpty : (b : BleHostBridge W X) → Runs b → b.pending_transport_observations ≡ []
  unfolding with_clock
  Runs-IsEmpty _ (initial id w capacity) = refl
  Runs-IsEmpty _ (next b run calm) =
      ended-IsEmpty (advance_round host cast b) (advance_round-Cleared b (Runs-IsEmpty b run)) calm
