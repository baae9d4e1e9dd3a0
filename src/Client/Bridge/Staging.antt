-- ===== src/Client/Bridge/Staging.antt =====
-- crates/jq-client/src/bridge.rs, `stage_transport_ingress`: the loop.
use mathlib.Core.List.{append-nil}
use jq_ble.Prelude.{
  ℕ, suc, ◌+◌, ◌≤◌, ◌≡◌, refl, sym, ap, ◌∙◌, subst, true, false, Option, none, some, List, [], ◌∷◌,
  length, Result, u64_max, arith, Bool-cases, inl, inr,
}
use jq_ble.Prelude.Actions.{continue}
use jq_ble.Core.Endpoints.{NodeId}
use jq_ble.Core.Events.{
  Link, FactSourceClass, RoutingEvidenceClass, OriginAuthenticationClass, TransportIngressEvent,
  TransportObservation,
}
use jq_ble.Link.Cast.{UnicastCast, link_observation_from_ble_event}
use jq_ble.Client.Bridge.{
  BleBridgeError, BridgeHost, BleHostBridge, is_full, push, drop_one, or_panic,
  observe_transport_ingress, stage_event, stage_events,
}
use jq_ble.Client.Bridge.Staged.{Reads, Staged, Stages, Stages-next, pushed}

module _ {E W X P R T : Type 0} (host : BridgeHost W X P R T) (cast : UnicastCast E X) where
  abbrev dropping : ℕ → BleHostBridge W X → BleHostBridge W X
  dropping n b = record b { dropped_transport_observations = n + b.dropped_transport_observations }

  abbrev with_dropped :
      BleHostBridge W X → ℕ → Result (BleBridgeError R T) (Unit {0}) × BleHostBridge W X
  with_dropped b n = (Result.ok tt, record b { dropped_transport_observations = n })

  stage_full :
      (tick : ℕ) (event : TransportIngressEvent X) (b : BleHostBridge W X)
      → is_full host cast b ≡ true
      → stage_event host cast tick event b ≡ drop_one host cast b
  unfolding stage_event
  stage_full tick event b full = rw (full, stage_event) refl

  stage_free :
      (tick : ℕ) (event : TransportIngressEvent X) (b : BleHostBridge W X)
      → is_full host cast b ≡ false
      → stage_event host cast tick event b
        ≡ continue (push host cast) (observe_transport_ingress host cast event tick b)
  unfolding stage_event
  stage_free tick event b free = rw (free, stage_event) refl

  stage_full_next :
      (tick : ℕ) (event : TransportIngressEvent X) (b : BleHostBridge W X)
      → is_full host cast b ≡ true
      → suc b.dropped_transport_observations ≤ u64_max
      → stage_event host cast tick event b ≡ (Result.ok tt, dropping 1 b)
  stage_full_next tick event b full room =
      stage_full tick event b full ∙ ap (λ (n : ℕ). with_dropped b n) (ground (arith, room))

  -- A full queue stays so, and the events that are left are dropped.
  stage_events-full :
      (tick : ℕ) (events : List (TransportIngressEvent X)) (b : BleHostBridge W X)
      → is_full host cast b ≡ true
      → length events + b.dropped_transport_observations ≤ u64_max
      → stage_events host cast tick events b ≡ (Result.ok tt, dropping (length events) b)
  unfolding stage_events
  stage_events-full tick [] b full room = ap (λ (n : ℕ). with_dropped b n) (omega arith)
  stage_events-full tick (event ∷ events) b full room =
      rw (stage_full_next tick event b full (omega (arith, room)), stage_events)
        (stage_events-full tick events (dropping 1 b) full (omega (arith, room))
          ∙ ap (λ (n : ℕ). with_dropped b n) (omega arith))

  all_dropped :
      (tick : ℕ) (events : List (TransportIngressEvent X)) (b : BleHostBridge W X)
      → is_full host cast b ≡ true
      → Staged host cast tick events b (dropping (length events) b)
  all_dropped tick events b full = record {
    kept = [];
    rest = events;
    fresh = [];
    split = refl;
    read = Reads.nothing b.world;
    whole = sym (append-nil b.pending_transport_observations);
    counted = refl;
    bounded = λ h. h;
    full = inr (ground (arith, full));
  }

  stage_link :
      (tick : ℕ) (remote : NodeId) (l : Link X) (source : FactSourceClass)
      (evidence : RoutingEvidenceClass) (origin : OriginAuthenticationClass)
      (events : List (TransportIngressEvent X)) (b : BleHostBridge W X) (order : ℕ) (w1 : W)
      (resolved : Option (TransportObservation X))
      → ((b1 : BleHostBridge W X)
          → length events + b1.dropped_transport_observations ≤ u64_max
          → Stages host cast tick events b1 (stage_events host cast tick events b1))
      → length events + b.dropped_transport_observations ≤ u64_max
      → is_full host cast b ≡ false
      → host.next_order_stamp b.world ≡ (order, w1)
      → link_observation_from_ble_event cast b.local_node_id
          (TransportIngressEvent.link_observed remote l source evidence origin)
          tick
          order
        ≡ resolved
      → Stages host cast tick
          (TransportIngressEvent.link_observed remote l source evidence origin ∷ events)
          b
          (continue
            (λ done. stage_events host cast tick events)
            (continue (push host cast) (or_panic host cast resolved (record b { world = w1 }))))
  stage_link tick remote l source evidence origin events b order w1 none later room free stamped
        same =
      record {
        panicked = refl;
        event = TransportIngressEvent.link_observed remote l source evidence origin;
        among = inl refl;
        order = order;
        unresolved = same;
      }
  stage_link tick remote l source evidence origin events b order w1 (some o) later room free stamped
        same =
      Stages-next host cast tick
        (TransportIngressEvent.link_observed remote l source evidence origin) events b o w1 _ free
        (λ kept os w r.
          Reads.link remote l source evidence origin order o b.world w1 w kept os stamped same r)
        (later
          (pushed host cast tick
            (TransportIngressEvent.link_observed remote l source evidence origin) events b o w1)
          room)

  stage_one :
      (tick : ℕ) (event : TransportIngressEvent X) (events : List (TransportIngressEvent X))
      (b : BleHostBridge W X)
      → ((b1 : BleHostBridge W X)
          → length events + b1.dropped_transport_observations ≤ u64_max
          → Stages host cast tick events b1 (stage_events host cast tick events b1))
      → length events + b.dropped_transport_observations ≤ u64_max
      → is_full host cast b ≡ false
      → Stages host cast tick (event ∷ events) b (
          continue
            (λ done. stage_events host cast tick events)
            (continue (push host cast) (observe_transport_ingress host cast event tick b)))
  unfolding observe_transport_ingress
  stage_one tick (TransportIngressEvent.payload_received from endpoint bytes) events b later room
        free =
      Stages-next host cast tick (TransportIngressEvent.payload_received from endpoint bytes) events
        b (TransportObservation.payload_received from endpoint bytes tick) b.world _ free
        (λ kept os w r. Reads.payload from endpoint bytes b.world w kept os r)
        (later
          (pushed host cast tick (TransportIngressEvent.payload_received from endpoint bytes) events
            b (TransportObservation.payload_received from endpoint bytes tick) b.world)
          room)
  stage_one tick (TransportIngressEvent.link_observed remote l source evidence origin) events b
        later room free =
      let (order, w1) = host.next_order_stamp b.world in
      stage_link tick remote l source evidence origin events b order w1 _ later room free refl refl

  -- The loop ends early only in the panic of an unresolved link.
  pub stage_events-Stages :
      (tick : ℕ) (events : List (TransportIngressEvent X)) (b : BleHostBridge W X)
      → length events + b.dropped_transport_observations ≤ u64_max
      → Stages host cast tick events b (stage_events host cast tick events b)
  unfolding stage_events
  stage_events-Stages tick [] b room = record {
    kept = [];
    rest = [];
    fresh = [];
    split = refl;
    read = Reads.nothing b.world;
    whole = sym (append-nil b.pending_transport_observations);
    counted = omega arith;
    bounded = λ h. h;
    full = inl refl;
  }
  stage_events-Stages tick (event ∷ events) b room = elim (Bool-cases (is_full host cast b)) [
    | inl full ↦
        subst (Stages host cast tick (event ∷ events) b)
          (sym (stage_events-full tick (event ∷ events) b full room))
          (all_dropped tick (event ∷ events) b full)
    | inr free ↦
        rw (stage_free tick event b free, stage_events)
          (stage_one tick event events b (stage_events-Stages tick events) (omega (arith, room))
            free)
  ]
