-- ===== src/Client/Bridge/Rounds.antt =====
-- crates/jq-client/src/bridge.rs, `advance_round`: what becomes of the events of a round.
use jq_ble.Prelude.{
  ℕ, ◌+◌, ◌≤◌, ◌≡◌, sym, ap, ◌∙◌, subst, ◌⊎◌, List, [], length, length-append, ok, arith, inl, inr,
}
use jq_ble.Prelude.Actions.{Ends, Ends-map, Ends-bind}
use jq_ble.Core.Events.{TransportIngressEvent}
use jq_ble.Link.Cast.{UnicastCast}
use jq_ble.Client.Bridge.{
  BleBridgeError, BridgeHost, BleBridgeProgress, BleHostBridge, u32_max, stage_events,
  stage_transport_ingress, advance_round,
}
use jq_ble.Client.Bridge.Staged.{Staged}
use jq_ble.Client.Bridge.Staging.{stage_events-Stages}
use jq_ble.Client.Bridge.Promises.{reported, dropped_in, Ingested, Stops, Accounts, Stopped, Loses}
use jq_ble.Client.Bridge.Closing.{taking, Closes, Halts, taking-Ends, progress-reported}

module _ {E W X P R T : Type 0} (host : BridgeHost W X P R T) (cast : UnicastCast E X) where
  module _ (tick : ℕ) (w : W) (events : List (TransportIngressEvent X)) (b b2 : BleHostBridge W X)
      (staged : Staged host cast tick events (record b { world = w }) b2) (snapshot : ℕ) where
    Closes-Accounts :
        (p : BleBridgeProgress X P) (b' : BleHostBridge W X)
        → length b.pending_transport_observations ≤ b.inbound_capacity
        → length events + b.dropped_transport_observations ≤ u32_max
        → Closes host cast snapshot b2.pending_transport_observations b2.world
            b2.dropped_transport_observations p b'
        → Accounts host cast tick w events b p b'
    Closes-Accounts p b' within small c =
        let whole = staged.whole in
        let counted = staged.counted in
        let sizes = ap length staged.split ∙ length-append staged.kept staged.rest in
        let said =
          progress-reported host cast snapshot c.flushed b2.dropped_transport_observations
            b2.pending_transport_observations c.outcome b' (omega (arith, counted, small, sizes)) in
        let all = ap reported c.result ∙ said.0 in
        record {
          kept = staged.kept;
          rest = staged.rest;
          fresh = staged.fresh;
          w2 = b2.world;
          w3 = c.w3;
          w4 = c.w4;
          outcome = c.outcome;
          flushed = c.flushed;
          split = staged.split;
          read = staged.read;
          handed = subst (λ os. Ingested host cast os b2.world c.w3) whole c.handed;
          routed = c.routed;
          sent = c.sent;
          ingested = all ∙ whole;
          counted = ap dropped_in c.result ∙ said.1 ∙ counted;
          bounded = subst (λ os. length os ≤ b.inbound_capacity) (sym all) (staged.bounded within);
          full =
              subst (λ os. (staged.rest ≡ []) ⊎ (b.inbound_capacity ≤ length os)) (sym all)
                staged.full;
          cleared = c.cleared;
          reset = c.reset;
        }

    Halts-Stopped :
        (e : BleBridgeError R T) (b' : BleHostBridge W X)
        → Halts host cast b2.pending_transport_observations b2.world e b'
        → Stopped host cast tick w events b e b'
    Halts-Stopped e b' (stops, cleared) = record {
      kept = staged.kept;
      rest = staged.rest;
      fresh = staged.fresh;
      w2 = b2.world;
      split = staged.split;
      read = staged.read;
      stopped = subst (λ os. Stops host cast os b2.world e b'.world) staged.whole stops;
      cleared = cleared;
    }

  -- A round whose drain gives `events` observes the first of them, as many as fit into the capacity,
  -- and counts the others as dropped. If it succeeds, the router has taken all that was pending and
  -- then the new observations, in order, has made its round on them, and the transport was flushed
  -- after it; the report has exactly these observations and this count. If it fails, either a link
  -- event of the drain was not resolved, or the router or the transport gave the error, and nothing is
  -- pending any more, what the router was not handed included.
  pub advance_round-Accounts :
      (b : BleHostBridge W X) (tick : ℕ) (w w' : W) (events : List (TransportIngressEvent X))
      → host.advance_tick b.world ≡ (tick, w)
      → host.drain_raw_ingress w ≡ (ok events, w')
      → length b.pending_transport_observations ≤ b.inbound_capacity
      → length events + b.dropped_transport_observations ≤ u32_max
      → Ends
          (Accounts host cast tick w' events b)
          (Loses host cast tick w' events b)
          (advance_round host cast b)
  unfolding advance_round stage_transport_ingress
  advance_round-Accounts b tick w w' events ticked drained within small =
      let b1 : BleHostBridge W X = record b { world = w' } in
      let snapshot = host.snapshot w in
      rw (ticked, advance_round)
        (rw (drained, advance_round)
          (Ends-bind (λ done b2. Staged host cast tick events b1 b2)
            (Accounts host cast tick w' events b) (Loses host cast tick w' events b)
            (stage_events host cast tick events b1) (λ done. taking host cast snapshot)
            (Ends-map (λ done b2 s. s) (λ e b2 u. inl u) (stage_events host cast tick events b1)
              (stage_events-Stages host cast tick events b1 (omega (arith, small))))
            (λ done b2 staged.
              Ends-map
                (λ p b' c. Closes-Accounts tick w' events b b2 staged snapshot p b' within small c)
                (λ e b' h. inr (Halts-Stopped tick w' events b b2 staged snapshot e b' h))
                (taking host cast snapshot b2) (taking-Ends host cast snapshot b2))))
