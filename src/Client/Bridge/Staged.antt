-- ===== src/Client/Bridge/Staged.antt =====
-- crates/jq-client/src/bridge.rs, `stage_transport_ingress`: what becomes of the drained events.
use mathlib.Core.List.{append_assoc}
use jq_ble.Prelude.{
  ℕ, ◌+◌, ◌≤◌, ◌≡◌, ap, ◌∙◌, false, none, some, List, [], ◌∷◌, ◌++◌, ◌⊎◌, Bytes, Member, length,
  length-append, Result, arith, inr,
}
use jq_ble.Prelude.Actions.{Ends, Ends-map}
use jq_ble.Core.Endpoints.{NodeId, LinkEndpoint}
use jq_ble.Core.Events.{
  Link, FactSourceClass, RoutingEvidenceClass, OriginAuthenticationClass, TransportIngressEvent,
  TransportObservation,
}
use jq_ble.Link.Cast.{UnicastCast, link_observation_from_ble_event}
use jq_ble.Client.Bridge.{BleBridgeError, panic, BridgeHost, BleHostBridge, is_full}

module _ {E W X P R T : Type 0} (host : BridgeHost W X P R T) (cast : UnicastCast E X) where
  -- The observations of events, in order, from a world to the next: a payload is observed at the tick
  -- of the round, a link as the profile observes it at that tick and with the clock's next stamp.
  pub data Reads (tick : ℕ) (id : NodeId)
      : W → List (TransportIngressEvent X) → List (TransportObservation X) → W → Type 0 where
    nothing : (w : W) → Reads tick id w [] [] w
    payload :
        (from : NodeId) (endpoint : LinkEndpoint) (bytes : Bytes) (w w' : W)
        (events : List (TransportIngressEvent X)) (os : List (TransportObservation X))
        → Reads tick id w events os w'
        → Reads tick id w
            (TransportIngressEvent.payload_received from endpoint bytes ∷ events)
            (TransportObservation.payload_received from endpoint bytes tick ∷ os)
            w'
    link :
        (remote : NodeId) (l : Link X) (source : FactSourceClass) (evidence : RoutingEvidenceClass)
        (origin : OriginAuthenticationClass) (order : ℕ) (o : TransportObservation X) (w w1 w' : W)
        (events : List (TransportIngressEvent X)) (os : List (TransportObservation X))
        → host.next_order_stamp w ≡ (order, w1)
        → link_observation_from_ble_event cast id
            (TransportIngressEvent.link_observed remote l source evidence origin)
            tick
            order
          ≡ some o
        → Reads tick id w1 events os w'
        → Reads tick id w
            (TransportIngressEvent.link_observed remote l source evidence origin ∷ events)
            (o ∷ os)
            w'

  -- How a bridge that has staged events differs from the bridge before: the first ones are observed
  -- and kept, the others counted as dropped, and none is dropped while there is room.
  pub record Staged (tick : ℕ) (events : List (TransportIngressEvent X)) (b b' : BleHostBridge W X)
      : Type 0 where
    pub kept : List (TransportIngressEvent X)
    pub rest : List (TransportIngressEvent X)
    pub fresh : List (TransportObservation X)
    pub split : events ≡ kept ++ rest
    pub read : Reads tick b.local_node_id b.world kept fresh b'.world
    pub whole : b'.pending_transport_observations ≡ b.pending_transport_observations ++ fresh
    pub counted : b'.dropped_transport_observations ≡ length rest + b.dropped_transport_observations
    pub bounded :
        length b.pending_transport_observations ≤ b.inbound_capacity
        → length b'.pending_transport_observations ≤ b.inbound_capacity
    pub full : (rest ≡ []) ⊎ (b.inbound_capacity ≤ length b'.pending_transport_observations)

  -- The panic of a link event that the profile does not resolve.
  pub record Unresolved (tick : ℕ) (id : NodeId) (events : List (TransportIngressEvent X))
      (e : BleBridgeError R T) : Type 0 where
    pub panicked : e ≡ panic
    pub event : TransportIngressEvent X
    pub among : Member event events
    pub order : ℕ
    pub unresolved : link_observation_from_ble_event cast id event tick order ≡ none

  Unresolved-later :
      (tick : ℕ) (id : NodeId) (event : TransportIngressEvent X)
      (events : List (TransportIngressEvent X)) (e : BleBridgeError R T)
      → Unresolved tick id events e
      → Unresolved tick id (event ∷ events) e
  Unresolved-later tick id event events e u = record {
    panicked = u.panicked;
    event = u.event;
    among = inr u.among;
    order = u.order;
    unresolved = u.unresolved;
  }

  abbrev pub Stages :
      ℕ
      → List (TransportIngressEvent X)
      → BleHostBridge W X
      → Result (BleBridgeError R T) (Unit {0}) × BleHostBridge W X
      → Type 0
  Stages tick events b r =
      Ends (λ done b'. Staged tick events b b') (λ e b'. Unresolved tick b.local_node_id events e) r

  module _ (tick : ℕ) (event : TransportIngressEvent X) (events : List (TransportIngressEvent X))
      (b : BleHostBridge W X) (o : TransportObservation X) (w1 : W) where
    abbrev pub pushed : BleHostBridge W X
    pushed = record b {
      world = w1;
      pending_transport_observations = b.pending_transport_observations ++ o ∷ [];
    }

    Staged-next :
        (b' : BleHostBridge W X)
        → is_full host cast b ≡ false
        → ((kept : List (TransportIngressEvent X)) (os : List (TransportObservation X)) (w : W)
            → Reads tick b.local_node_id w1 kept os w
            → Reads tick b.local_node_id b.world (event ∷ kept) (o ∷ os) w)
        → Staged tick events pushed b'
        → Staged tick (event ∷ events) b b'
    Staged-next b' free reads s = record {
      kept = event ∷ s.kept;
      rest = s.rest;
      fresh = o ∷ s.fresh;
      split = ap (◌∷◌ event) s.split;
      read = reads s.kept s.fresh b'.world s.read;
      whole = s.whole ∙ append_assoc b.pending_transport_observations (o ∷ []) s.fresh;
      counted = s.counted;
      bounded = λ h.
          s.bounded (ground (arith, free, length-append b.pending_transport_observations (o ∷ [])));
      full = s.full;
    }

    pub Stages-next :
        (r : Result (BleBridgeError R T) (Unit {0}) × BleHostBridge W X)
        → is_full host cast b ≡ false
        → ((kept : List (TransportIngressEvent X)) (os : List (TransportObservation X)) (w : W)
            → Reads tick b.local_node_id w1 kept os w
            → Reads tick b.local_node_id b.world (event ∷ kept) (o ∷ os) w)
        → Stages tick events pushed r
        → Stages tick (event ∷ events) b r
    Stages-next r free reads =
        Ends-map (λ done b' s. Staged-next b' free reads s)
          (λ e b' u. Unresolved-later tick b.local_node_id event events e u) r
