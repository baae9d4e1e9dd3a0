-- ===== src/Client/Task/Frame.antt =====
-- crates/jq-client/src/client.rs: what a round leaves alone.
use jq_ble.Prelude.{
  ◌≡◌, refl, ◌∙◌, Bool, true, false, Option, none, some, List, [], ◌∷◌, Result, ok, err, Eq, inl,
  inr, Bool-cases,
}
use jq_ble.Prelude.Actions.{continue, Ends, Ends-map, Ends-bind}
use jq_ble.Core.Events.{Link, Observation, TransportObservation}
use jq_ble.Link.Cast.{UnicastCast}
use jq_ble.Nodes.Topology.{MeshTopology}
use jq_ble.Client.Multicast.{is_multicast_fanout_observation}
use jq_ble.Client.Bridge.{
  BridgeHost, BleHostBridge, BleBridgeError, BleBridgeProgress, advanced, waiting,
  BleBridgeRoundReport, RouterRoundOutcome, advance_round,
}
use jq_ble.Client.Projector.{HostProjector}
use jq_ble.Client.Routing.{policy_inputs_for, RoutingPolicyInputs}
use jq_ble.Client.Task.{
  BleClientError, RouterHost, ClientTask, Job, with_world, bridged, bridge_round, publish_incoming,
  publish_topology, apply_observation, apply_observations, feed_inputs, feed_router,
  apply_round_outcome, apply_bridge_report, finish_report, apply_bridge_progress, run_follow_up,
  publish_if, follow_up, drive_bridge_round,
}

module _ {E W X P R T N G V A Caps M H : Type 0} (bridge_host : BridgeHost W X P R T)
    (cast : UnicastCast E X)
    (projector_host : HostProjector N X G V Caps M (RouterRoundOutcome P) H)
    (router : RouterHost W N X V A R T M) ⦃same_link : Eq (Link X)⦄
    ⦃same_observation : Eq (Observation (Link X))⦄ ⦃same_mesh : Eq (MeshTopology N X G)⦄ where
  abbrev pub State : Type 0
  State = ClientTask W X N G V H

  -- The routes that are cached stay, whether the call succeeds or fails.
  abbrev pub Frame : State → {B : Type 0} → B → State → Type 0
  Frame t a t' = t'.route_cache ≡ t.route_cache

  pub Frame-bind :
      {B C : Type 0} (t : State) (r : Result (BleClientError R T) B × State)
      (f : B → Job bridge_host cast projector_host router C)
      → Ends (Frame t) (Frame t) r
      → ((a : B) (t1 : State) → Ends (Frame t1) (Frame t1) (f a t1))
      → Ends (Frame t) (Frame t) (continue f r)
  Frame-bind t r f h k =
      Ends-bind (Frame t) (Frame t) (Frame t) r f h
        (λ a t1 same. Ends-map (λ b t2 s. s ∙ same) (λ e t2 s. s ∙ same) (f a t1) (k a t1))

  apply_observation-Frame :
      (o : TransportObservation X) (t : State)
      → Frame t o (apply_observation bridge_host cast projector_host router o t).1
  unfolding apply_observation
  apply_observation-Frame o t = elim (Bool-cases (is_multicast_fanout_observation o)) [
    | inl fanout ↦ rw fanout refl
    | inr plain ↦ rw plain refl
  ]

  apply_observations-Frame :
      (os : List (TransportObservation X)) (t : State)
      → Frame t os (apply_observations bridge_host cast projector_host router os t).1
  unfolding apply_observations
  apply_observations-Frame [] t = refl
  apply_observations-Frame (o ∷ os) t =
      apply_observations-Frame os (apply_observation bridge_host cast projector_host router o t).1
      ∙ apply_observation-Frame o t

  feed_router-Frame :
      (changed : Bool) (t : State)
      → Ends (Frame t) (Frame t) (feed_router bridge_host cast projector_host router changed t)
  unfolding feed_router
  feed_router-Frame false t = refl
  feed_router-Frame true t =
      fed (policy_inputs_for router.environment t.projector.topology t.local_node_id)
    where
      fed :
          (inputs : Option (RoutingPolicyInputs N A))
          → Ends (Frame t) (Frame t) (
              feed_inputs bridge_host cast projector_host router inputs (
                with_world bridge_host cast projector_host router
                  (router.ingest_topology_observation t.projector.topology t.bridge.world)
                  t))
      fed none = refl
      fed (some inputs) = refl

  finish_report-Frame :
      (report : BleBridgeRoundReport X P) (changed : Bool) (t : State)
      → Ends
          (Frame t)
          (Frame t)
          (finish_report bridge_host cast projector_host router report changed t)
  unfolding finish_report apply_round_outcome
  finish_report-Frame report changed t =
      Frame-bind t (feed_router bridge_host cast projector_host router changed t) _
        (feed_router-Frame changed t) (λ done t3. refl)

  apply_bridge_progress-Frame :
      (p : BleBridgeProgress X P) (t : State)
      → Ends (Frame t) (Frame t) (apply_bridge_progress bridge_host cast projector_host router p t)
  unfolding apply_bridge_progress apply_bridge_report publish_incoming
  apply_bridge_progress-Frame (waiting wait_state) t = refl
  apply_bridge_progress-Frame (advanced report) t =
      let os = report.ingested_transport_observations in
      let (changed, t1) = apply_observations bridge_host cast projector_host router os t in
      Frame-bind t (ok changed, publish_incoming bridge_host cast projector_host router os t1)
        (finish_report bridge_host cast projector_host router report)
        (apply_observations-Frame os t) (finish_report-Frame report)

  bridge_round-Frame :
      (t : State) → Ends (Frame t) (Frame t) (bridge_round bridge_host cast projector_host router t)
  bridge_round-Frame t = stays (advance_round bridge_host cast t.bridge)
    where
      stays :
          (r : Result (BleBridgeError R T) (BleBridgeProgress X P) × BleHostBridge W X)
          → Ends (Frame t) (Frame t) (bridged bridge_host cast projector_host router t r)
      stays (ok p, b) = refl
      stays (err e, b) = refl

  follow_up-Frame :
      (again : Bool) (p : BleBridgeProgress X P) (changed : Bool) (t : State)
      → Ends
          (Frame t)
          (Frame t)
          (follow_up bridge_host cast projector_host router again p changed t)
  follow_up-Frame false p changed t = refl
  follow_up-Frame true p changed t =
      Frame-bind t (bridge_round bridge_host cast projector_host router t) _ (bridge_round-Frame t)
        (λ next t1.
          Frame-bind t1 (apply_bridge_progress bridge_host cast projector_host router next t1) _
            (apply_bridge_progress-Frame next t1) (λ late t2. refl))

  pub publish_if-Frame :
      (changed : Bool) (t : State)
      → Ends (Frame t) (Frame t) (publish_if bridge_host cast projector_host router changed t)
  unfolding publish_topology
  publish_if-Frame false t = refl
  publish_if-Frame true t = refl

  pub drive_bridge_round-Frame :
      (t : State)
      → Ends (Frame t) (Frame t) (drive_bridge_round bridge_host cast projector_host router t)
  unfolding drive_bridge_round
  drive_bridge_round-Frame t =
      Frame-bind t (bridge_round bridge_host cast projector_host router t) _ (bridge_round-Frame t)
        (λ p t1.
          Frame-bind t1 (apply_bridge_progress bridge_host cast projector_host router p t1) _
            (apply_bridge_progress-Frame p t1)
            (λ changed t2.
              let again = run_follow_up bridge_host cast projector_host router p in
              Frame-bind t2 (follow_up bridge_host cast projector_host router again p changed t2) _
                (follow_up-Frame again p changed t2)
                (λ last t3.
                  Frame-bind t3 (publish_if bridge_host cast projector_host router last.0 t3) _
                    (publish_if-Frame last.0 t3) (λ done t4. refl))))
