-- ===== src/Client/Bridge.antt =====
-- crates/jq-client/src/bridge.rs. The router, the transport and the clock are one state `W`, since
-- they share the client's effects; `P` is the part of a round's outcome that is only carried.
pub mod Staged
pub mod Staging
pub mod Promises
pub mod Closing
pub mod Panics
pub mod Rounds
pub mod Runs
use jq_ble.Prelude.{
  ℕ, ◌&&◌, Bool, true, false, Option, none, some, List, [], ◌∷◌, ◌++◌, leb, ltb, length, is_empty,
  nat_beq, Result, ok, err, saturating_suc, if◌then◌else◌,
}
use jq_ble.Prelude.Actions.{Action, pure, fail, reads, ◌>>=◌, ◌>>◌}
use jq_ble.Core.Endpoints.{NodeId}
use jq_ble.Core.Events.{TransportIngressEvent, TransportObservation}
use jq_ble.Link.Cast.{UnicastCast, link_observation_from_ble_event}

pub data RoutingTickChange : Type 0 where
  no_change : RoutingTickChange
  other : ℕ → RoutingTickChange

pub data RoutingTickHint : Type 0 where
  immediate : RoutingTickHint
  within_ticks : ℕ → RoutingTickHint
  host_default : RoutingTickHint

pub record RouterRoundOutcome (P : Type 0) : Type 0 where
  pub engine_change : RoutingTickChange
  pub next_round_hint : RoutingTickHint
  pub rest : P

-- A panic ends the task; the other two are `BleBridgeError`.
pub data BleBridgeError (R T : Type 0) : Type 0 where
  route : R → BleBridgeError R T
  transport : T → BleBridgeError R T
  panic : BleBridgeError R T

-- The router, `BleBridgeIo` and the clock.
pub record BridgeHost (W X P R T : Type 0) : Type 0 where
  pub router_ingest : TransportObservation X → W → Option R × W
  pub router_advance_round : W → Result R (RouterRoundOutcome P) × W
  pub drain_raw_ingress : W → Result T (List (TransportIngressEvent X)) × W
  pub flush_outbound : W → Result T ℕ × W
  pub pending_outbound : W → ℕ
  pub snapshot : W → ℕ
  pub advance_tick : W → ℕ × W
  pub next_order_stamp : W → ℕ × W

pub record BleBridgeRoundReport (X P : Type 0) : Type 0 where
  pub router_outcome : RouterRoundOutcome P
  pub ingested_transport_observations : List (TransportObservation X)
  pub flushed_transport_commands : ℕ
  pub dropped_transport_observations : ℕ

pub record BleBridgeWaitState : Type 0 where
  pub next_round_hint : RoutingTickHint
  pub pending_transport_observations : ℕ
  pub pending_transport_commands : ℕ
  pub dropped_transport_observations : ℕ
  pub notifier_snapshot : ℕ

pub data BleBridgeProgress (X P : Type 0) : Type 0 where
  advanced : BleBridgeRoundReport X P → BleBridgeProgress X P
  waiting : BleBridgeWaitState → BleBridgeProgress X P

pub data BleBridgeWaitDecision : Type 0 where
  advance_immediately : BleBridgeWaitDecision
  wait_until_tick block_on_notifier : ℕ → BleBridgeWaitDecision

pub record BleHostBridge (W X : Type 0) : Type 0 where
  pub local_node_id : NodeId
  pub world : W
  pub pending_transport_observations : List (TransportObservation X)
  pub inbound_capacity : ℕ
  pub dropped_transport_observations : ℕ

abbrev pub u32_max : ℕ
u32_max = 4294967295

unfoldable pub narrow_count : ℕ → ℕ
narrow_count value = if leb value u32_max then value else u32_max

-- `BleBridgeConfig::default`.
abbrev pub default_inbound_capacity : ℕ
default_inbound_capacity = 1024

-- `BleHostBridge::with_clock`.
unfoldable pub with_clock : {W X : Type 0} → NodeId → W → ℕ → BleHostBridge W X
with_clock local_node_id world inbound_capacity = record {
  local_node_id = local_node_id;
  world = world;
  pending_transport_observations = [];
  inbound_capacity = inbound_capacity;
  dropped_transport_observations = 0;
}

module _ {E W X P R T : Type 0} (host : BridgeHost W X P R T) (cast : UnicastCast E X) where
  abbrev pub Turn : Type 0 → Type 0
  Turn A = Action (BleHostBridge W X) (BleBridgeError R T) A

  -- A call on the world, and one that can fail there.
  abbrev pub on_world : {A : Type 0} → (W → A × W) → Turn A
  on_world f b = let (a, w) = f b.world in (ok a, record b { world = w })

  abbrev pub route_result :
      {A : Type 0}
      → BleHostBridge W X
      → Result R A × W
      → Result (BleBridgeError R T) A × BleHostBridge W X
  route_result b (ok a, w) = (ok a, record b { world = w })
  route_result b (err e, w) = (err (route e), record b { world = w })

  abbrev pub transport_result :
      {A : Type 0}
      → BleHostBridge W X
      → Result T A × W
      → Result (BleBridgeError R T) A × BleHostBridge W X
  transport_result b (ok a, w) = (ok a, record b { world = w })
  transport_result b (err e, w) = (err (transport e), record b { world = w })

  abbrev pub or_panic : {A : Type 0} → Option A → Turn A
  or_panic none = fail panic
  or_panic (some a) = pure a

  unfoldable pub observe_transport_ingress :
      TransportIngressEvent X → ℕ → Turn (TransportObservation X)
  observe_transport_ingress (TransportIngressEvent.payload_received from endpoint payload) tick =
      pure (TransportObservation.payload_received from endpoint payload tick)
  observe_transport_ingress (TransportIngressEvent.link_observed remote link source evidence origin)
        tick =
      do
        order ← on_world host.next_order_stamp
        local_node_id ← reads (λ b. b.local_node_id)
        or_panic (
            link_observation_from_ble_event cast local_node_id
              (TransportIngressEvent.link_observed remote link source evidence origin) tick order)

  abbrev pub push : TransportObservation X → Turn (Unit {0})
  push o b = (
    ok tt,
    record b { pending_transport_observations = b.pending_transport_observations ++ o ∷ [] },
  )

  abbrev pub is_full : BleHostBridge W X → Bool
  is_full b = leb b.inbound_capacity (length b.pending_transport_observations)

  abbrev pub drop_one : Turn (Unit {0})
  drop_one b = (
    ok tt,
    record b { dropped_transport_observations = saturating_suc b.dropped_transport_observations },
  )

  -- The body of the loop of `stage_transport_ingress`, and the loop.
  unfoldable pub stage_event : ℕ → TransportIngressEvent X → Turn (Unit {0})
  unfolding observe_transport_ingress
  stage_event tick event b = elim (is_full b) [
    | true ↦ drop_one b
    | false ↦ (observe_transport_ingress event tick >>= push) b
  ]

  unfoldable pub stage_events : ℕ → List (TransportIngressEvent X) → Turn (Unit {0})
  unfolding stage_event
  stage_events tick [] = pure tt
  stage_events tick (event ∷ events) = stage_event tick event >> stage_events tick events

  abbrev pub drain : Turn (List (TransportIngressEvent X))
  drain b = transport_result b (host.drain_raw_ingress b.world)

  unfoldable pub stage_transport_ingress : ℕ → Turn (Unit {0})
  unfolding stage_events
  stage_transport_ingress tick = drain >>= stage_events tick

  abbrev pub take_pending : Turn (List (TransportObservation X))
  take_pending b =
      (ok b.pending_transport_observations, record b { pending_transport_observations = [] })

  abbrev pub take_dropped : Turn ℕ
  take_dropped b =
      (ok b.dropped_transport_observations, record b { dropped_transport_observations = 0 })

  abbrev pub ingest_result :
      BleHostBridge W X → Option R × W → Result (BleBridgeError R T) (Unit {0}) × BleHostBridge W X
  ingest_result b (none, w) = (ok tt, record b { world = w })
  ingest_result b (some e, w) = (err (route e), record b { world = w })

  abbrev pub ingest_one : TransportObservation X → Turn (Unit {0})
  ingest_one o b = ingest_result b (host.router_ingest o b.world)

  unfoldable pub ingest_all : List (TransportObservation X) → Turn (Unit {0})
  ingest_all [] = pure tt
  ingest_all (o ∷ rest) = ingest_one o >> ingest_all rest

  abbrev pub round : Turn (RouterRoundOutcome P)
  round b = route_result b (host.router_advance_round b.world)

  abbrev pub flush : Turn ℕ
  flush b = transport_result b (host.flush_outbound b.world)

  abbrev pub is_no_change : RoutingTickChange → Bool
  is_no_change no_change = true
  is_no_change (RoutingTickChange.other change) = false

  unfoldable pub progress_of :
      ℕ
      → List (TransportObservation X)
      → RouterRoundOutcome P
      → ℕ
      → ℕ
      → BleHostBridge W X
      → BleBridgeProgress X P
  progress_of notifier_snapshot ingested outcome flushed dropped b =
      if is_empty ingested
        && nat_beq flushed 0
        && nat_beq dropped 0
        && is_no_change outcome.engine_change
      then waiting (record {
        next_round_hint = outcome.next_round_hint;
        pending_transport_observations = narrow_count (length b.pending_transport_observations);
        pending_transport_commands = narrow_count (host.pending_outbound b.world);
        dropped_transport_observations = narrow_count dropped;
        notifier_snapshot = notifier_snapshot;
      })
      else advanced (record {
        router_outcome = outcome;
        ingested_transport_observations = ingested;
        flushed_transport_commands = narrow_count flushed;
        dropped_transport_observations = narrow_count dropped;
      })

  unfoldable pub advance_round : Turn (BleBridgeProgress X P)
  unfolding stage_transport_ingress ingest_all progress_of
  advance_round = do
    observed_at_tick ← on_world host.advance_tick
    notifier_snapshot ← reads (λ b. host.snapshot b.world)
    stage_transport_ingress observed_at_tick
    ingested ← take_pending
    ingest_all ingested
    outcome ← round
    flushed ← flush
    dropped ← take_dropped
    reads (progress_of notifier_snapshot ingested outcome flushed dropped)

unfoldable pub wait_decision : BleBridgeWaitState → BleBridgeWaitDecision
wait_decision s =
    if ltb 0 s.pending_transport_observations
    then advance_immediately
    else if ltb 0 s.pending_transport_commands
    then advance_immediately
    else elim s.next_round_hint [
      | immediate ↦ advance_immediately
      | within_ticks tick ↦ wait_until_tick tick
      | host_default ↦ block_on_notifier s.notifier_snapshot
    ]
