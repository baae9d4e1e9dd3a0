-- ===== src/Client/Bridge/Closing.antt =====
-- crates/jq-client/src/bridge.rs, `advance_round` after the staging.
use jq_ble.Prelude.{
  ℕ, ◌≤◌, ◌≡◌, refl, sym, subst, Option, none, some, List, [], ◌∷◌, Result, ok, err, arith,
}
use jq_ble.Prelude.Actions.{◌>>◌, ◌>>=◌, continue, reads, Ends, Ends-map, Ends-bind}
use jq_ble.Core.Events.{TransportObservation}
use jq_ble.Link.Cast.{UnicastCast}
use jq_ble.Client.Bridge.{
  BleBridgeError, route, RouterRoundOutcome, BridgeHost, BleBridgeProgress, BleHostBridge, u32_max,
  narrow_count, Turn, take_pending, take_dropped, ingest_result, ingest_all, route_result,
  transport_result, round, flush, progress_of,
}
use jq_ble.Client.Bridge.Promises.{reported, dropped_in, Ingested, Refused, Stops}

module _ {E W X P R T : Type 0} (host : BridgeHost W X P R T) (cast : UnicastCast E X) where
  pub progress-reported :
      (snapshot flushed dropped : ℕ) (ingested : List (TransportObservation X))
      (outcome : RouterRoundOutcome P) (b : BleHostBridge W X)
      → dropped ≤ u32_max
      → (reported (progress_of host cast snapshot ingested outcome flushed dropped b) ≡ ingested)
        × (dropped_in (progress_of host cast snapshot ingested outcome flushed dropped b) ≡ dropped)
  unfolding progress_of narrow_count
  progress-reported snapshot flushed dropped [] outcome b small = ground (arith, small)
  progress-reported snapshot flushed dropped (o ∷ rest) outcome b small = ground (arith, small)

  -- The end of a round, what precedes it after the staging, and both with their promises.
  abbrev pub closing : ℕ → List (TransportObservation X) → Turn host cast (BleBridgeProgress X P)
  closing snapshot ingested = do
    outcome ← round host cast
    flushed ← flush host cast
    dropped ← take_dropped host cast
    reads (progress_of host cast snapshot ingested outcome flushed dropped)

  abbrev pub taking : ℕ → Turn host cast (BleBridgeProgress X P)
  taking snapshot = do
    ingested ← take_pending host cast
    ingest_all host cast ingested
    closing snapshot ingested

  pub record Closes (snapshot : ℕ) (os : List (TransportObservation X)) (w : W) (dropped : ℕ)
      (p : BleBridgeProgress X P) (b' : BleHostBridge W X) : Type 0 where
    pub w3 : W
    pub w4 : W
    pub outcome : RouterRoundOutcome P
    pub flushed : ℕ
    pub handed : Ingested host cast os w w3
    pub routed : host.router_advance_round w3 ≡ (ok outcome, w4)
    pub sent : host.flush_outbound w4 ≡ (ok flushed, b'.world)
    pub result : p ≡ progress_of host cast snapshot os outcome flushed dropped b'
    pub cleared : b'.pending_transport_observations ≡ []
    pub reset : b'.dropped_transport_observations ≡ 0

  abbrev pub Halts :
      List (TransportObservation X) → W → BleBridgeError R T → BleHostBridge W X → Type 0
  Halts os w e b' = Stops host cast os w e b'.world × (b'.pending_transport_observations ≡ [])

  module _ (snapshot : ℕ) (os : List (TransportObservation X)) (w : W) (dropped : ℕ) where
    -- The bridge during the ingestion.
    abbrev emptied : BleHostBridge W X → W → BleHostBridge W X
    emptied b w' = record b {
      world = w';
      pending_transport_observations = [];
      dropped_transport_observations = dropped;
    }

    flush_with :
        (b : BleHostBridge W X) (w3 w4 : W) (outcome : RouterRoundOutcome P) (r : Result T ℕ × W)
        → Ingested host cast os w w3
        → host.router_advance_round w3 ≡ (ok outcome, w4)
        → host.flush_outbound w4 ≡ r
        → Ends (Closes snapshot os w dropped) (Halts os w) (
            continue
              (λ flushed.
                take_dropped host cast
                >>= (λ lost. reads (progress_of host cast snapshot os outcome flushed lost)))
              (transport_result host cast (emptied b w4) r))
    flush_with b w3 w4 outcome (ok flushed, w') handed routed sent = record {
      w3 = w3;
      w4 = w4;
      outcome = outcome;
      flushed = flushed;
      handed = handed;
      routed = routed;
      sent = sent;
      result = refl;
      cleared = refl;
      reset = refl;
    }
    flush_with b w3 w4 outcome (err e, w') handed routed sent =
        (Stops.unflushed e outcome w3 w4 w' handed routed sent, refl)

    round_with :
        (b : BleHostBridge W X) (w3 : W) (r : Result R (RouterRoundOutcome P) × W)
        → Ingested host cast os w w3
        → host.router_advance_round w3 ≡ r
        → Ends (Closes snapshot os w dropped) (Halts os w) (
            continue
              (λ outcome. flush host cast >>= (λ flushed.
                take_dropped host cast
                >>= (λ lost. reads (progress_of host cast snapshot os outcome flushed lost))))
              (route_result host cast (emptied b w3) r))
    round_with b w3 (ok outcome, w4) handed routed =
        flush_with b w3 w4 outcome (host.flush_outbound w4) handed routed refl
    round_with b w3 (err e, w') handed routed = (Stops.unrouted e w3 w' handed routed, refl)

  ingest_one_with :
      (o : TransportObservation X) (os : List (TransportObservation X)) (b : BleHostBridge W X)
      (r : Option R × W)
      → host.router_ingest o b.world ≡ r
      → ((w1 : W)
          → Ends
              (λ done b'. (w' : W) × Ingested host cast os w1 w' × (b' ≡ record b { world = w' }))
              (λ e b'.
                (r : R) × (w' : W) × Refused host cast os w1 r w'
                × (e ≡ route r)
                × (b' ≡ record b { world = w' }))
              (ingest_all host cast os (record b { world = w1 })))
      → Ends
          (λ done b'.
            (w' : W) × Ingested host cast (o ∷ os) b.world w' × (b' ≡ record b { world = w' }))
          (λ e b'.
            (r : R) × (w' : W) × Refused host cast (o ∷ os) b.world r w'
            × (e ≡ route r)
            × (b' ≡ record b { world = w' }))
          (continue (λ done. ingest_all host cast os) (ingest_result host cast b r))
  ingest_one_with o os b (none, w1) same rest =
      Ends-map (λ done b' (w', handed, is). (w', Ingested.taken o os b.world w1 w' same handed, is))
        (λ e b' (r, w', stuck, what, is).
          (r, w', Refused.later o os r b.world w1 w' same stuck, what, is))
        (ingest_all host cast os (record b { world = w1 })) (rest w1)
  ingest_one_with o os b (some e, w') same rest =
      (e, w', Refused.here o os e b.world w' same, refl, refl)

  ingest_all-Ends :
      (os : List (TransportObservation X)) (b : BleHostBridge W X)
      → Ends
          (λ done b'. (w' : W) × Ingested host cast os b.world w' × (b' ≡ record b { world = w' }))
          (λ e b'.
            (r : R) × (w' : W) × Refused host cast os b.world r w'
            × (e ≡ route r)
            × (b' ≡ record b { world = w' }))
          (ingest_all host cast os b)
  unfolding ingest_all
  ingest_all-Ends [] b = (b.world, Ingested.all_taken b.world, refl)
  ingest_all-Ends (o ∷ os) b =
      ingest_one_with o os b (host.router_ingest o b.world) refl
        (λ w1. ingest_all-Ends os (record b { world = w1 }))

  pub taking-Ends :
      (snapshot : ℕ) (b : BleHostBridge W X)
      → Ends
          (Closes snapshot b.pending_transport_observations b.world
            b.dropped_transport_observations)
          (Halts b.pending_transport_observations b.world)
          (taking snapshot b)
  taking-Ends snapshot b =
      let os = b.pending_transport_observations in
      let start : BleHostBridge W X = record b { pending_transport_observations = [] } in
      let Q = Closes snapshot os b.world b.dropped_transport_observations in
      let F = Halts os b.world in
      Ends-bind
        (λ done b3.
          (w3 : W) × Ingested host cast os b.world w3 × (b3 ≡ record start { world = w3 }))
        Q F (ingest_all host cast os start) (λ done. closing snapshot os)
        (Ends-map (λ done b3 h. h)
          (λ e b' (r, w', stuck, what, is).
            subst (λ e. F e b') (sym what)
              (subst (F (route r)) (sym is) (Stops.refused r w' stuck, refl)))
          (ingest_all host cast os start) (ingest_all-Ends os start))
        (λ done b3 (w3, handed, is).
          subst (λ s. Ends Q F (closing snapshot os s)) (sym is)
            (round_with snapshot os b.world b.dropped_transport_observations b w3
              (host.router_advance_round w3) handed refl))
