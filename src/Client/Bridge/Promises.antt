-- ===== src/Client/Bridge/Promises.antt =====
-- crates/jq-client/src/bridge.rs, `advance_round`: what a round promises of the events of its drain.
use jq_ble.Prelude.{ℕ, ◌+◌, ◌≤◌, ◌≡◌, ◌⊎◌, none, some, List, [], ◌∷◌, ◌++◌, length, ok, err}
use jq_ble.Core.Events.{TransportIngressEvent, TransportObservation}
use jq_ble.Link.Cast.{UnicastCast}
use jq_ble.Client.Bridge.{
  BleBridgeError, route, transport, RouterRoundOutcome, BridgeHost, BleBridgeProgress, advanced,
  waiting, BleHostBridge,
}
use jq_ble.Client.Bridge.Staged.{Reads, Unresolved}

module _ {X P : Type 0} where
  -- What a round reports to have ingested, and to have dropped.
  abbrev pub reported : BleBridgeProgress X P → List (TransportObservation X)
  reported (advanced report) = report.ingested_transport_observations
  reported (waiting wait_state) = []

  abbrev pub dropped_in : BleBridgeProgress X P → ℕ
  dropped_in (advanced report) = report.dropped_transport_observations
  dropped_in (waiting wait_state) = wait_state.dropped_transport_observations

module _ {E W X P R T : Type 0} (host : BridgeHost W X P R T) (cast : UnicastCast E X) where
  -- The router takes every observation, in order.
  pub data Ingested : List (TransportObservation X) → W → W → Type 0 where
    all_taken : (w : W) → Ingested [] w w
    taken :
        (o : TransportObservation X) (os : List (TransportObservation X)) (w w1 w' : W)
        → host.router_ingest o w ≡ (none, w1)
        → Ingested os w1 w'
        → Ingested (o ∷ os) w w'

  -- It takes the first ones and refuses the next; those after it never reach the router.
  pub data Refused : List (TransportObservation X) → W → R → W → Type 0 where
    here :
        (o : TransportObservation X) (os : List (TransportObservation X)) (e : R) (w w' : W)
        → host.router_ingest o w ≡ (some e, w')
        → Refused (o ∷ os) w e w'
    later :
        (o : TransportObservation X) (os : List (TransportObservation X)) (e : R) (w w1 w' : W)
        → host.router_ingest o w ≡ (none, w1)
        → Refused os w1 e w'
        → Refused (o ∷ os) w e w'

  -- The three ways in which a round stops after the staging.
  pub data Stops (os : List (TransportObservation X)) (w : W)
      : BleBridgeError R T → W → Type 0 where
    refused : (e : R) (w' : W) → Refused os w e w' → Stops os w (route e) w'
    unrouted :
        (e : R) (w3 w' : W)
        → Ingested os w w3
        → host.router_advance_round w3 ≡ (err e, w')
        → Stops os w (route e) w'
    unflushed :
        (e : T) (outcome : RouterRoundOutcome P) (w3 w4 w' : W)
        → Ingested os w w3
        → host.router_advance_round w3 ≡ (ok outcome, w4)
        → host.flush_outbound w4 ≡ (err e, w')
        → Stops os w (transport e) w'

  -- A successful round on the drained `events`, `w` being the world after the drain. The first events
  -- are observed, the others dropped; the router takes all that was pending and then the new
  -- observations, makes its round, and the transport is flushed.
  pub record Accounts (tick : ℕ) (w : W) (events : List (TransportIngressEvent X))
      (b : BleHostBridge W X) (p : BleBridgeProgress X P) (b' : BleHostBridge W X) : Type 0 where
    pub kept : List (TransportIngressEvent X)
    pub rest : List (TransportIngressEvent X)
    pub fresh : List (TransportObservation X)
    pub w2 : W
    pub w3 : W
    pub w4 : W
    pub outcome : RouterRoundOutcome P
    pub flushed : ℕ
    pub split : events ≡ kept ++ rest
    pub read : Reads host cast tick b.local_node_id w kept fresh w2
    pub handed : Ingested (b.pending_transport_observations ++ fresh) w2 w3
    pub routed : host.router_advance_round w3 ≡ (ok outcome, w4)
    pub sent : host.flush_outbound w4 ≡ (ok flushed, b'.world)
    pub ingested : reported p ≡ b.pending_transport_observations ++ fresh
    pub counted : dropped_in p ≡ length rest + b.dropped_transport_observations
    pub bounded : length (reported p) ≤ b.inbound_capacity
    pub full : (rest ≡ []) ⊎ (b.inbound_capacity ≤ length (reported p))
    pub cleared : b'.pending_transport_observations ≡ []
    pub reset : b'.dropped_transport_observations ≡ 0

  -- A round that stops once the events are staged leaves nothing pending, although the router may not
  -- have been handed everything.
  pub record Stopped (tick : ℕ) (w : W) (events : List (TransportIngressEvent X))
      (b : BleHostBridge W X) (e : BleBridgeError R T) (b' : BleHostBridge W X) : Type 0 where
    pub kept : List (TransportIngressEvent X)
    pub rest : List (TransportIngressEvent X)
    pub fresh : List (TransportObservation X)
    pub w2 : W
    pub split : events ≡ kept ++ rest
    pub read : Reads host cast tick b.local_node_id w kept fresh w2
    pub stopped : Stops (b.pending_transport_observations ++ fresh) w2 e b'.world
    pub cleared : b'.pending_transport_observations ≡ []

  abbrev pub Loses :
      ℕ
      → W
      → List (TransportIngressEvent X)
      → BleHostBridge W X
      → BleBridgeError R T
      → BleHostBridge W X
      → Type 0
  Loses tick w events b e b' =
      Unresolved host cast tick b.local_node_id events e ⊎ Stopped tick w events b e b'
