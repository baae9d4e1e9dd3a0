-- ===== src/Client/Bridge/Panics.antt =====
-- crates/jq-client/src/bridge.rs, `advance_round`: the panic of an unresolved link.
use jq_ble.Prelude.{
  ℕ, ◌+◌, ◌≤◌, ◌≡◌, ◌≢◌, refl, ap, true, Option, none, some, List, Result, ok, err, length, Member,
  u64_max, arith, Bool-cases, Option-cases, inl, inr,
}
use jq_ble.Prelude.Actions.{Ends, Ends-map, Ends-bind}
use jq_ble.Core.Endpoints.{NodeId}
use jq_ble.Core.Events.{
  Link, FactSourceClass, RoutingEvidenceClass, OriginAuthenticationClass, TransportIngressEvent,
  TransportObservation,
}
use jq_ble.Link.Cast.{
  UnicastCast, is_active, cast_evidence_meta, shape_ble_unicast_delivery_support, resolved_link,
  observed_link, UnicastDeliverySupport, link_observation_from_ble_event,
}
use jq_ble.Client.Bridge.{
  BleBridgeError, panic, BridgeHost, BleBridgeProgress, BleHostBridge, stage_events,
  stage_transport_ingress, advance_round,
}
use jq_ble.Client.Bridge.Staging.{stage_events-Stages}
use jq_ble.Client.Bridge.Promises.{Stops}
use jq_ble.Client.Bridge.Closing.{taking, taking-Ends}

module _ {E X : Type 0} (cast : UnicastCast E X) where
  -- An active link among the events, that the profile's evidence gives no unicast support at the tick
  -- of the round.
  pub record HasUnsupported (tick : ℕ) (id : NodeId) (events : List (TransportIngressEvent X))
      : Type 0 where
    pub remote : NodeId
    pub link : Link X
    pub source : FactSourceClass
    pub evidence : RoutingEvidenceClass
    pub origin : OriginAuthenticationClass
    pub order : ℕ
    pub among :
        Member (TransportIngressEvent.link_observed remote link source evidence origin) events
    pub active : is_active link.runtime_state ≡ true
    pub unsupported :
        shape_ble_unicast_delivery_support cast id remote link.endpoint
          (cast_evidence_meta tick order)
        ≡ none

  observed_link-none :
      (id remote : NodeId) (link : Link X) (tick order : ℕ)
      → observed_link cast id remote link tick order ≡ none
      → (is_active link.runtime_state ≡ true)
        × (shape_ble_unicast_delivery_support cast id remote link.endpoint
              (cast_evidence_meta tick order)
            ≡ none)
  unfolding observed_link resolved_link
  observed_link-none id remote link tick order gone =
      elim (Bool-cases (is_active link.runtime_state)) [
        | inr down ↦
            let resolved : observed_link cast id remote link tick order ≡ some link =
              rw (down, observed_link) refl in
            absurd (some_none _ resolved gone)
        | inl up ↦ elim (Option-cases shaped) [
          | inl unsupported ↦ (up, unsupported)
          | inr (s, supported) ↦
              let resolved : observed_link cast id remote link tick order
                  ≡ resolved_link cast link.endpoint tick (some s) =
                rw (up, observed_link) (ap (resolved_link cast link.endpoint tick) supported) in
              absurd (some_none _ resolved gone)
        ]
      ]
    where
      shaped : Option UnicastDeliverySupport
      shaped =
          shape_ble_unicast_delivery_support cast id remote link.endpoint
            (cast_evidence_meta tick order)

      some_none : {o : Option (Link X)} (l : Link X) → o ≡ some l → o ≢ none
      some_none l e n = cc

  unresolved-HasUnsupported :
      (tick : ℕ) (id : NodeId) (events : List (TransportIngressEvent X))
      (event : TransportIngressEvent X) (order : ℕ)
      → Member event events
      → link_observation_from_ble_event cast id event tick order ≡ none
      → HasUnsupported tick id events
  unfolding link_observation_from_ble_event
  unresolved-HasUnsupported tick id events
        (TransportIngressEvent.payload_received from endpoint payload) order among gone =
      absurd cc
  unresolved-HasUnsupported tick id events
        (TransportIngressEvent.link_observed remote link source evidence origin) order among gone =
      elim (Option-cases (observed_link cast id remote link tick order)) [
        | inr (l, resolved) ↦ absurd (ground (arith, resolved, gone))
        | inl unresolved ↦
            let (active, unsupported) = observed_link-none id remote link tick order unresolved in
            record {
              remote = remote;
              link = link;
              source = source;
              evidence = evidence;
              origin = origin;
              order = order;
              among = among;
              active = active;
              unsupported = unsupported;
            }
      ]

module _ {E W X P R T : Type 0} (host : BridgeHost W X P R T) (cast : UnicastCast E X) where
  Stops-calm :
      (os : List (TransportObservation X)) (w w' : W) (e : BleBridgeError R T)
      → Stops host cast os w e w'
      → e ≢ panic
  Stops-calm os w w' _ (Stops.refused e _ stuck) same = cc
  Stops-calm os w w' _ (Stops.unrouted e w3 _ handed failed) same = cc
  Stops-calm os w w' _ (Stops.unflushed e outcome w3 w4 _ handed routed failed) same = cc

  panicked_in :
      (Z : Type 0) (r : Result (BleBridgeError R T) (BleBridgeProgress X P) × BleHostBridge W X)
      → Ends (λ p b. Unit) (λ e b. e ≡ panic → Z) r
      → r.0 ≡ err panic
      → Z
  panicked_in Z (ok p, b) h same = absurd cc
  panicked_in Z (err e, b) h same = h cc

  -- A round panics only if its drain has an event of an active link that the profile's evidence,
  -- observed at the tick of the round, gives no unicast support; the router and the transport cannot
  -- make it panic.
  pub advance_round-HasUnsupported :
      (b : BleHostBridge W X) (tick : ℕ) (w w' : W) (events : List (TransportIngressEvent X))
      → host.advance_tick b.world ≡ (tick, w)
      → host.drain_raw_ingress w ≡ (ok events, w')
      → length events + b.dropped_transport_observations ≤ u64_max
      → (advance_round host cast b).0 ≡ err panic
      → HasUnsupported cast tick b.local_node_id events
  unfolding advance_round stage_transport_ingress
  advance_round-HasUnsupported b tick w w' events ticked drained room =
      let b1 : BleHostBridge W X = record b { world = w' } in
      let snapshot = host.snapshot w in
      let Z = HasUnsupported cast tick b.local_node_id events in
      panicked_in Z (advance_round host cast b) (
        rw (ticked, advance_round)
          (rw (drained, advance_round)
            (Ends-bind (λ done b2. Unit) (λ p b'. Unit) (λ e b'. e ≡ panic → Z)
              (stage_events host cast tick events b1) (λ done. taking host cast snapshot)
              (Ends-map (λ done b2 s. tt)
                (λ e b2 u same.
                  unresolved-HasUnsupported cast tick b.local_node_id events u.event u.order u.among
                    u.unresolved)
                (stage_events host cast tick events b1)
                (stage_events-Stages host cast tick events b1 room))
              (λ done b2 staged.
                Ends-map (λ p b' c. tt)
                  (λ e b' h same.
                    absurd
                      (Stops-calm b2.pending_transport_observations b2.world b'.world e h.0 same))
                  (taking host cast snapshot b2) (taking-Ends host cast snapshot b2)))))
