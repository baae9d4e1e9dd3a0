-- ===== src/Client/Task/Sync.antt =====
-- crates/jq-client/src/client.rs: the snapshot that the handle shares, and the projector's.
use jq_ble.Prelude.{
  ◌≡◌, refl, sym, ◌∙◌, Bool, true, false, Option, none, some, List, [], ◌∷◌, Result, ok, err, Eq,
  ◌==◌, ◌⊎◌, inl, inr, Bool-cases, arith,
}
use jq_ble.Prelude.Actions.{Ends, Ends-map, Ends-bind}
use jq_ble.Core.Events.{Link, Observation, TransportObservation}
use jq_ble.Link.Cast.{UnicastCast}
use jq_ble.Nodes.Topology.{MeshTopology}
use jq_ble.Client.Multicast.{is_multicast_fanout_observation}
use jq_ble.Client.Bridge.{
  BridgeHost, BleHostBridge, BleBridgeError, BleBridgeProgress, advanced, waiting,
  BleBridgeRoundReport, RouterRoundOutcome, advance_round,
}
use jq_ble.Client.Projector.{
  HostProjector, TopologyProjector, ingest_transport_observation, ingest_round_outcome,
}
use jq_ble.Client.Projector.Freshness.{Flags, Step, Step-Flags}
use jq_ble.Client.Routing.{policy_inputs_for, RoutingPolicyInputs}
use jq_ble.Client.Task.{
  BleClientError, RouterHost, ClientTask, with_world, bridged, bridge_round, publish_incoming,
  publish_topology, apply_observation, apply_observations, feed_inputs, feed_router,
  apply_round_outcome, apply_bridge_report, finish_report, apply_bridge_progress, run_follow_up,
  publish_if, follow_up, drive_bridge_round,
}

module _ {E W X P R T N G V A Caps M H : Type 0} (bridge_host : BridgeHost W X P R T)
    (cast : UnicastCast E X)
    (projector_host : HostProjector N X G V Caps M (RouterRoundOutcome P) H)
    (router : RouterHost W N X V A R T M) ⦃same_link : Eq (Link X)⦄
    ⦃same_observation : Eq (Observation (Link X))⦄ ⦃same_mesh : Eq (MeshTopology N X G)⦄ where
  abbrev pub State : Type 0
  State = ClientTask W X N G V H

  -- The shared snapshot is the projector's.
  abbrev pub IsInSync : State → Type 0
  IsInSync t = t.topology ≡ t.projector.snapshot

  -- Only the projector moved, and its snapshot only if the flag says so.
  abbrev pub Moved : State → Bool → State → Type 0
  Moved t changed t' =
      (t'.topology ≡ t.topology) × (changed ≡ false → t'.projector.snapshot ≡ t.projector.snapshot)

  abbrev pub Stays : State → {B : Type 0} → B → State → Type 0
  Stays t a t' = (t'.topology ≡ t.topology) × (t'.projector.snapshot ≡ t.projector.snapshot)

  abbrev pub Any : BleClientError R T → State → Type 0
  Any e t = Unit

  -- The snapshots are the same, or neither moved.
  abbrev pub Settled : State → {B : Type 0} → B → State → Type 0
  Settled t a t' = IsInSync t' ⊎ Stays t a t'

  pub unflagged :
      (before : MeshTopology N X G) (r : Bool × TopologyProjector N X G V H)
      → Flags projector_host before r
      → r.0 ≡ false
      → r.1.snapshot ≡ before
  unflagged before (changed, p) flags quiet = elim (Bool-cases (p.snapshot == before)) [
    | inl same ↦ (same_mesh.decides p.snapshot before).0 same
    | inr differ ↦ cc (flags.1 (λ same. cc ((same_mesh.decides p.snapshot before).1 same)))
  ]

  apply_observation-Moved :
      (o : TransportObservation X) (t : State)
      → (let r = apply_observation bridge_host cast projector_host router o t in Moved t r.0 r.1)
  unfolding apply_observation
  apply_observation-Moved o t = elim (Bool-cases (is_multicast_fanout_observation o)) [
    | inl fanout ↦ rw fanout (refl, λ quiet. refl)
    | inr plain ↦ rw plain (
      refl,
      unflagged t.projector.snapshot (ingest_transport_observation projector_host o t.projector)
          (Step-Flags projector_host _ _ (Step.observed o t.projector)),
    )
  ]

  apply_observations-Moved :
      (os : List (TransportObservation X)) (t : State)
      → (let r = apply_observations bridge_host cast projector_host router os t in Moved t r.0 r.1)
  unfolding apply_observations
  apply_observations-Moved [] t = (refl, λ quiet. refl)
  apply_observations-Moved (o ∷ os) t =
      let (first, t1) = apply_observation bridge_host cast projector_host router o t in
      let m = apply_observation-Moved o t in
      let n = apply_observations-Moved os t1 in
      (n.0 ∙ m.0, λ quiet. n.1 (ground (arith, quiet)) ∙ m.1 (ground (arith, quiet)))

  feed_router-Stays :
      (changed : Bool) (t : State)
      → Ends (Stays t) Any (feed_router bridge_host cast projector_host router changed t)
  unfolding feed_router
  feed_router-Stays false t = (refl, refl)
  feed_router-Stays true t =
      fed (policy_inputs_for router.environment t.projector.topology t.local_node_id)
    where
      fed :
          (inputs : Option (RoutingPolicyInputs N A))
          → Ends (Stays t) Any (
              feed_inputs bridge_host cast projector_host router inputs (
                with_world bridge_host cast projector_host router
                  (router.ingest_topology_observation t.projector.topology t.bridge.world)
                  t))
      fed none = tt
      fed (some inputs) = (refl, refl)

  apply_bridge_report-Moved :
      (report : BleBridgeRoundReport X P) (t : State)
      → Ends (Moved t) Any (apply_bridge_report bridge_host cast projector_host router report t)
  unfolding apply_bridge_report finish_report publish_incoming apply_round_outcome
  apply_bridge_report-Moved report t =
      let os = report.ingested_transport_observations in
      let (changed, t1) = apply_observations bridge_host cast projector_host router os t in
      let m = apply_observations-Moved os t in
      let t2 = publish_incoming bridge_host cast projector_host router os t1 in
      Ends-bind (Stays t2) (Moved t) Any
        (feed_router bridge_host cast projector_host router changed t2) _
        (feed_router-Stays changed t2)
        (λ done t3 s.
          let late =
            unflagged t3.projector.snapshot
              (ingest_round_outcome projector_host report.router_outcome t3.projector)
              (Step-Flags projector_host _ _ (Step.outcome report.router_outcome t3.projector)) in
          (s.0 ∙ m.0, λ quiet. late (ground (arith, quiet)) ∙ s.1 ∙ m.1 (ground (arith, quiet))))

  apply_bridge_progress-Moved :
      (p : BleBridgeProgress X P) (t : State)
      → Ends (Moved t) Any (apply_bridge_progress bridge_host cast projector_host router p t)
  unfolding apply_bridge_progress
  apply_bridge_progress-Moved (advanced report) t = apply_bridge_report-Moved report t
  apply_bridge_progress-Moved (waiting wait_state) t = (refl, λ quiet. refl)

  bridge_round-Stays :
      (t : State) → Ends (Stays t) Any (bridge_round bridge_host cast projector_host router t)
  bridge_round-Stays t = stays (advance_round bridge_host cast t.bridge)
    where
      stays :
          (r : Result (BleBridgeError R T) (BleBridgeProgress X P) × BleHostBridge W X)
          → Ends (Stays t) Any (bridged bridge_host cast projector_host router t r)
      stays (ok p, b) = (refl, refl)
      stays (err e, b) = tt

  -- Of the flag and the progress.
  abbrev Flagged : State → Bool × BleBridgeProgress X P → State → Type 0
  Flagged t last t' = Moved t last.0 t'

  follow_up-Flagged :
      (again : Bool) (p : BleBridgeProgress X P) (changed : Bool) (t t1 : State)
      → Moved t changed t1
      → Ends (Flagged t) Any (follow_up bridge_host cast projector_host router again p changed t1)
  follow_up-Flagged false p changed t t1 m = m
  follow_up-Flagged true p changed t t1 m =
      Ends-bind (Stays t1) (Flagged t) Any (bridge_round bridge_host cast projector_host router t1)
        _ (bridge_round-Stays t1)
        (λ next t2 s.
          Ends-bind (Moved t2) (Flagged t) Any
            (apply_bridge_progress bridge_host cast projector_host router next t2) _
            (apply_bridge_progress-Moved next t2)
            (λ late t3 n. (
              n.0 ∙ s.0 ∙ m.0,
              λ quiet. n.1 (ground (arith, quiet)) ∙ s.1 ∙ m.1 (ground (arith, quiet)),
            )))

  pub publish_if-Settled :
      {B : Type 0} (a : B) (changed : Bool) (t t1 : State)
      → Moved t changed t1
      → Ends
          (λ done t2. Settled t a t2)
          Any
          (publish_if bridge_host cast projector_host router changed t1)
  unfolding publish_topology
  publish_if-Settled a false t t1 m = inr (m.0, m.1 refl)
  publish_if-Settled a true t t1 m = inl refl

  pub drive_bridge_round-Settled :
      (t : State)
      → Ends (Settled t) Any (drive_bridge_round bridge_host cast projector_host router t)
  unfolding drive_bridge_round
  drive_bridge_round-Settled t =
      Ends-bind (Stays t) (Settled t) Any (bridge_round bridge_host cast projector_host router t) _
        (bridge_round-Stays t)
        (λ p t1 s.
          Ends-bind (Moved t1) (Settled t) Any
            (apply_bridge_progress bridge_host cast projector_host router p t1) _
            (apply_bridge_progress-Moved p t1)
            (λ changed t2 m.
              Ends-bind (Flagged t) (Settled t) Any
                (follow_up bridge_host cast projector_host router
                  (run_follow_up bridge_host cast projector_host router p) p changed t2)
                _
                (follow_up-Flagged (run_follow_up bridge_host cast projector_host router p) p
                  changed t t2 (m.0 ∙ s.0, λ quiet. m.1 quiet ∙ s.1))
                (λ last t3 f.
                  Ends-bind (λ done t4. Settled t last.1 t4) (Settled t) Any
                    (publish_if bridge_host cast projector_host router last.0 t3) _
                    (publish_if-Settled last.1 last.0 t t3 f) (λ done t4 settled. settled))))

  -- After a round of the bridge that succeeds, its follow-up included, the snapshot that the handle
  -- shares is the projector's, if it was before; a round that fails promises nothing of the two.
  pub drive_bridge_round-IsInSync :
      (t : State)
      → IsInSync t
      → Ends (λ p t'. IsInSync t') Any (drive_bridge_round bridge_host cast projector_host router t)
  drive_bridge_round-IsInSync t synced =
      Ends-map
        (λ p t' settled. elim settled [
          | inl there ↦ there
          | inr (shared, own) ↦ shared ∙ synced ∙ sym own
        ])
        (λ e t' any. any) (drive_bridge_round bridge_host cast projector_host router t)
        (drive_bridge_round-Settled t)
