-- ===== src/Client/Projector/Freshness.antt =====
-- crates/jq-client/src/projector.rs: when a projector's snapshot changes.
use jq_ble.Prelude.{
  ℕ, ◌≡◌, ◌≢◌, ◌↔◌, refl, sym, ap, ◌∙◌, subst, Bool, true, false, some, Eq, ◌==◌, option_eq,
  option_beq_iff, Map, get, insert_same, insert-IsSorted, IsSorted, pair_eq, pair_order, arith,
  Bool-cases, inl, inr,
}
use jq_ble.Core.Endpoints.{NodeId, LinkEndpoint, id_eq, id_order}
use jq_ble.Core.Events.{Link, Observation, TransportObservation}
use jq_ble.Nodes.Topology.{MeshTopology}
use jq_ble.Client.Projector.{
  Configuration, HostProjector, TopologyProjector, next_snapshot, refresh_snapshot,
  ingest_engine_capabilities, ingest_materialized_route, ingest_round_outcome, bump_topology_tick,
  ensure_remote_node, insert_link, observe_link, observe, ingest_transport_observation,
}

module _ {N X G V Caps M O H : Type 0} (host : HostProjector N X G V Caps M O H)
    ⦃same_link : Eq (Link X)⦄ ⦃same_observation : Eq (Observation (Link X))⦄
    ⦃same_mesh : Eq (MeshTopology N X G)⦄ where
  -- The snapshot is what the parts give, and the maps are in the order of their keys.
  pub record IsFresh (p : TopologyProjector N X G V H) : Type 0 where
    pub current : p.snapshot ≡ next_snapshot host p
    pub observations : IsSorted p.edge_observations
    pub links : IsSorted p.topology.value.links

  abbrev Sorted : TopologyProjector N X G V H → Type 0
  Sorted p = IsSorted p.edge_observations × IsSorted p.topology.value.links

  -- What a step from the snapshot `before` promises of the flag it returns.
  abbrev pub Flags : MeshTopology N X G → Bool × TopologyProjector N X G V H → Type 0
  Flags before r = (r.0 ≡ true) ↔ (r.1.snapshot ≢ before)

  refresh-IsFresh :
      (p : TopologyProjector N X G V H) → Sorted p → IsFresh (refresh_snapshot host p).1
  unfolding refresh_snapshot
  refresh-IsFresh p (s, t) = elim (Bool-cases (next_snapshot host p == p.snapshot)) [
    | inl same ↦
        rw same
          record { current = sym ((same_mesh.decides _ _).0 same); observations = s; links = t }
    | inr changed ↦ rw changed record { current = refl; observations = s; links = t }
  ]

  refresh-Flags : (p : TopologyProjector N X G V H) → Flags p.snapshot (refresh_snapshot host p)
  unfolding refresh_snapshot
  refresh-Flags p = elim (Bool-cases (next_snapshot host p == p.snapshot)) [
    | inl same ↦ rw same (λ e. absurd cc, λ differ. absurd (differ refl))
    | inr changed ↦ rw changed (λ e same. cc ((same_mesh.decides _ _).1 same), λ differ. refl)
  ]

  -- The steps that precede a link do not touch the links.
  module _ (c : Observation (Configuration N X V)) where
    bump_links : (tick : ℕ) → (bump_topology_tick host tick c).1.value.links ≡ c.value.links
    unfolding bump_topology_tick
    bump_links tick = ground arith

    bump_same :
        (tick : ℕ)
        → (bump_topology_tick host tick c).0 ≡ false
        → (bump_topology_tick host tick c).1 ≡ c
    unfolding bump_topology_tick
    bump_same tick quiet = ground (arith, quiet)

    ensure_links :
        (k : NodeId) (endpoint : LinkEndpoint) (tick : ℕ)
        → (ensure_remote_node host k endpoint tick c).1.value.links ≡ c.value.links
    unfolding ensure_remote_node
    ensure_links k endpoint tick = ground arith

    ensure_same :
        (k : NodeId) (endpoint : LinkEndpoint) (tick : ℕ)
        → (ensure_remote_node host k endpoint tick c).0 ≡ false
        → (ensure_remote_node host k endpoint tick c).1 ≡ c
    unfolding ensure_remote_node
    ensure_same k endpoint tick quiet = ground (arith, quiet)

  module _ (remote_node_id : NodeId) (o : Observation (Link X))
      (p : TopologyProjector N X G V H) where
    abbrev key : NodeId × NodeId
    key = (p.snapshot.local_node_id, remote_node_id)

    abbrev ticked : Bool × Observation (Configuration N X V)
    ticked = bump_topology_tick host o.observed_at_tick p.topology

    abbrev added : Bool × Observation (Configuration N X V)
    added = ensure_remote_node host remote_node_id o.value.endpoint o.observed_at_tick ticked.1

    added_links : added.1.value.links ≡ p.topology.value.links
    added_links =
        ensure_links ticked.1 remote_node_id o.value.endpoint o.observed_at_tick
        ∙ bump_links p.topology o.observed_at_tick

    observe_link_same :
        Sorted p
        → (observe_link host remote_node_id o p).0 ≡ false
        → (observe_link host remote_node_id o p).1 ≡ p
    unfolding observe_link
    observe_link_same (s, t) quiet =
        let no_tick : ticked.0 ≡ false = ground (arith, quiet) in
        let no_node : added.0 ≡ false = ground (arith, quiet) in
        let linked : (get key added.1.value.links == some o.value) ≡ true = ground (arith, quiet) in
        let observed : (get key p.edge_observations == some o) ≡ true = ground (arith, quiet) in
        let same_topology : added.1 ≡ p.topology =
          ensure_same ticked.1 remote_node_id o.value.endpoint o.observed_at_tick no_node
          ∙ bump_same p.topology o.observed_at_tick no_tick in
        let kept = insert_same key o p.edge_observations s ((option_beq_iff _ _).0 observed) in
        let kept_link =
          insert_same key o.value added.1.value.links (subst IsSorted (sym added_links) t)
            ((option_beq_iff _ _).0 linked) in
        let relinked : insert_link host key o.value added.1 ≡ added.1 =
          ap
            (λ (links : Map (NodeId × NodeId) (Link X)).
              let c : Observation (Configuration N X V) = record added.1 {
                value = record added.1.value { links = links };
              } in
              c)
            kept_link in
        let whole = relinked ∙ same_topology in
        λ i. record p { topology = whole i; edge_observations = kept i }

    observe_link-Sorted : Sorted p → Sorted (observe_link host remote_node_id o p).1
    unfolding observe_link
    observe_link-Sorted (s, t) = (
      insert-IsSorted key o p.edge_observations s,
      insert-IsSorted key o.value added.1.value.links (subst IsSorted (sym added_links) t),
    )

  observe-Sorted :
      (observation : TransportObservation X) (p : TopologyProjector N X G V H)
      → Sorted p
      → Sorted (observe host observation p).1
  unfolding observe
  observe-Sorted (TransportObservation.payload_received from endpoint payload tick) p (s, t) =
      (s, subst IsSorted (sym (bump_links p.topology tick)) t)
  observe-Sorted (TransportObservation.link_observed k o) p sorted =
      observe_link-Sorted k o p sorted

  observe_same :
      (observation : TransportObservation X) (p : TopologyProjector N X G V H)
      → Sorted p
      → (observe host observation p).0 ≡ false
      → (observe host observation p).1 ≡ p
  unfolding observe
  observe_same (TransportObservation.payload_received from endpoint payload tick) p sorted quiet =
      ap
        (λ (c : Observation (Configuration N X V)).
          let p' : TopologyProjector N X G V H = record p { topology = c } in p')
        (bump_same p.topology tick quiet)
  observe_same (TransportObservation.link_observed k o) p sorted quiet =
      observe_link_same k o p sorted quiet

  observe_snapshot :
      (observation : TransportObservation X) (p : TopologyProjector N X G V H)
      → (observe host observation p).1.snapshot ≡ p.snapshot
  unfolding observe observe_link
  observe_snapshot (TransportObservation.payload_received from endpoint payload tick) p = refl
  observe_snapshot (TransportObservation.link_observed k o) p = refl

  -- Every step leaves the projector fresh.
  pub data Step : TopologyProjector N X G V H → Bool × TopologyProjector N X G V H → Type 0 where
    observed :
        (observation : TransportObservation X) (p : TopologyProjector N X G V H)
        → Step p (ingest_transport_observation host observation p)
    capabilities :
        (c : Caps) (p : TopologyProjector N X G V H) → Step p (ingest_engine_capabilities host c p)
    materialized :
        (m : M) (p : TopologyProjector N X G V H) → Step p (ingest_materialized_route host m p)
    outcome : (o : O) (p : TopologyProjector N X G V H) → Step p (ingest_round_outcome host o p)

  observed-IsFresh :
      (observation : TransportObservation X) (p : TopologyProjector N X G V H)
      → IsFresh p
      → IsFresh (ingest_transport_observation host observation p).1
  unfolding ingest_transport_observation
  observed-IsFresh observation p f = elim (Bool-cases (observe host observation p).0) [
    | inl changed ↦
        rw changed (refresh-IsFresh _ (observe-Sorted observation p (f.observations, f.links)))
    | inr quiet ↦
        rw quiet
          (subst IsFresh (sym (observe_same observation p (f.observations, f.links) quiet)) f)
  ]

  observed-Flags :
      (observation : TransportObservation X) (p : TopologyProjector N X G V H)
      → Flags p.snapshot (ingest_transport_observation host observation p)
  unfolding ingest_transport_observation
  observed-Flags observation p = elim (Bool-cases (observe host observation p).0) [
    | inl changed ↦
        let q = (observe host observation p).1 in
        let before = observe_snapshot observation p in
        let fed : TopologyProjector N X G V H = record q {
          host_projector = host.ingest_topology q.topology q.host_projector;
        } in
        rw changed
          (subst (λ before. Flags before (refresh_snapshot host fed)) before (refresh-Flags fed))
    | inr quiet ↦
        rw quiet (λ e. absurd cc, λ differ. absurd (differ (observe_snapshot observation p)))
  ]

  pub Step-IsFresh :
      (p : TopologyProjector N X G V H) (r : Bool × TopologyProjector N X G V H)
      → Step p r
      → IsFresh p
      → IsFresh r.1
  unfolding ingest_engine_capabilities ingest_materialized_route ingest_round_outcome
  Step-IsFresh _ _ (observed observation p) f = observed-IsFresh observation p f
  Step-IsFresh _ _ (capabilities c p) f = refresh-IsFresh _ (f.observations, f.links)
  Step-IsFresh _ _ (materialized m p) f = refresh-IsFresh _ (f.observations, f.links)
  Step-IsFresh _ _ (outcome o p) f = refresh-IsFresh _ (f.observations, f.links)

  -- Every step returns true exactly if the snapshot differs from the one before it.
  pub Step-Flags :
      (p : TopologyProjector N X G V H) (r : Bool × TopologyProjector N X G V H)
      → Step p r
      → Flags p.snapshot r
  unfolding ingest_engine_capabilities ingest_materialized_route ingest_round_outcome
  Step-Flags _ _ (observed observation p) = observed-Flags observation p
  Step-Flags _ _ (capabilities c p) = refresh-Flags _
  Step-Flags _ _ (materialized m p) = refresh-Flags _
  Step-Flags _ _ (outcome o p) = refresh-Flags _
