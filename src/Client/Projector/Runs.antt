-- ===== src/Client/Projector/Runs.antt =====
-- crates/jq-client/src/projector.rs: the projectors that `new` and the `ingest` methods lead to.
use jq_ble.Prelude.{
  ℕ, ◌≡◌, refl, Bool, true, [], ◌∷◌, Eq, ◌==◌, Map, has, get-insert, IsSorted, Above, pair_eq,
  pair_order, arith, Bool-cases, inl, inr,
}
use jq_ble.Core.Endpoints.{NodeId, LinkEndpoint, id_eq, id_order}
use jq_ble.Core.Events.{Link, Observation, TransportObservation}
use jq_ble.Nodes.Topology.{MeshTopology}
use jq_ble.Client.Projector.{
  Configuration, HostProjector, TopologyProjector, observed_links, next_snapshot, refresh_snapshot,
  ingest_engine_capabilities, ingest_materialized_route, ingest_round_outcome, bump_topology_tick,
  ensure_remote_node, observe_link, observe, ingest_transport_observation, new_projector,
}
use jq_ble.Client.Projector.Freshness.{IsFresh, Step, Step-IsFresh}

module _ {N X G V Caps M O H : Type 0} (host : HostProjector N X G V Caps M O H)
    ⦃same_link : Eq (Link X)⦄ ⦃same_observation : Eq (Observation (Link X))⦄
    ⦃same_mesh : Eq (MeshTopology N X G)⦄ where
  -- From an initial configuration whose links are in the order of their keys.
  pub data Runs (local_node_id : NodeId) : TopologyProjector N X G V H → Type 0 where
    initial :
        (topology : Observation (Configuration N X V))
        → IsSorted topology.value.links
        → has local_node_id topology.value.nodes ≡ true
        → Runs local_node_id (new_projector host local_node_id topology)
    next :
        (p : TopologyProjector N X G V H) (r : Bool × TopologyProjector N X G V H)
        → Runs local_node_id p
        → Step host p r
        → Runs local_node_id r.1

  module _ (topology : Observation (Configuration N X V)) where
    observed_links-Above :
        (k : NodeId × NodeId) (links : Map (NodeId × NodeId) (Link X))
        → Above k links
        → Above k (observed_links host topology links)
    observed_links-Above k [] a = tt
    observed_links-Above k ((j, link) ∷ links) a = (a.0, observed_links-Above k links a.1)

    observed_links-IsSorted :
        (links : Map (NodeId × NodeId) (Link X))
        → IsSorted links
        → IsSorted (observed_links host topology links)
    observed_links-IsSorted [] s = tt
    observed_links-IsSorted ((j, link) ∷ links) s =
        (observed_links-Above j links s.0, observed_links-IsSorted links s.1)

  -- The snapshot of a projector is at all times the one that its edge observations and the host's
  -- projector give, also after a step that returned early for want of a change.
  pub Runs-IsFresh :
      (local_node_id : NodeId) (p : TopologyProjector N X G V H)
      → Runs local_node_id p
      → IsFresh host p
  unfolding new_projector
  Runs-IsFresh local_node_id _ (initial topology sorted present) = record {
    current = refl;
    observations = observed_links-IsSorted topology topology.value.links sorted;
    links = sorted;
  }
  Runs-IsFresh local_node_id _ (next p r run step) =
      Step-IsFresh host p r step (Runs-IsFresh local_node_id p run)

  abbrev HasNode : NodeId → Observation (Configuration N X V) → Type 0
  HasNode k c = has k c.value.nodes ≡ true

  module _ (k : NodeId) where
    refresh_kept :
        (p : TopologyProjector N X G V H)
        → HasNode k p.topology
        → HasNode k (refresh_snapshot host p).1.topology
    unfolding refresh_snapshot
    refresh_kept p h = elim (Bool-cases (next_snapshot host p == p.snapshot)) [
      | inl same ↦ rw same h
      | inr changed ↦ rw changed h
    ]

    bump_kept :
        (tick : ℕ) (c : Observation (Configuration N X V))
        → HasNode k c
        → HasNode k (bump_topology_tick host tick c).1
    unfolding bump_topology_tick
    bump_kept tick c h = ground (arith, h)

    ensure_kept :
        (remote : NodeId) (endpoint : LinkEndpoint) (tick : ℕ)
        (c : Observation (Configuration N X V))
        → HasNode k c
        → HasNode k (ensure_remote_node host remote endpoint tick c).1
    unfolding ensure_remote_node
    ensure_kept remote endpoint tick c h =
        ground (
          arith,
          h,
          get-insert remote k (host.route_capable_node remote endpoint tick) c.value.nodes,
        )

    observe_kept :
        (observation : TransportObservation X) (p : TopologyProjector N X G V H)
        → HasNode k p.topology
        → HasNode k (observe host observation p).1.topology
    unfolding observe observe_link
    observe_kept (TransportObservation.payload_received from endpoint payload tick) p h =
        bump_kept tick p.topology h
    observe_kept (TransportObservation.link_observed remote o) p h =
        ensure_kept remote o.value.endpoint o.observed_at_tick _
          (bump_kept o.observed_at_tick p.topology h)

    Step-kept :
        (p : TopologyProjector N X G V H) (r : Bool × TopologyProjector N X G V H)
        → Step host p r
        → HasNode k p.topology
        → HasNode k r.1.topology
    unfolding ingest_transport_observation ingest_engine_capabilities ingest_materialized_route
        ingest_round_outcome
    Step-kept _ _ (Step.capabilities c p) h = refresh_kept _ h
    Step-kept _ _ (Step.materialized m p) h = refresh_kept _ h
    Step-kept _ _ (Step.outcome o p) h = refresh_kept _ h
    Step-kept _ _ (Step.observed o p) h = elim (Bool-cases (observe host o p).0) [
      | inl changed ↦ rw changed (refresh_kept _ (observe_kept o p h))
      | inr quiet ↦ rw quiet (observe_kept o p h)
    ]

  -- The local node stays in the configuration, where `policy_inputs_for` looks it up.
  pub Runs-HasNode :
      (local_node_id : NodeId) (p : TopologyProjector N X G V H)
      → Runs local_node_id p
      → has local_node_id p.topology.value.nodes ≡ true
  unfolding new_projector
  Runs-HasNode local_node_id _ (initial topology sorted present) = present
  Runs-HasNode local_node_id _ (next p r run step) =
      Step-kept local_node_id p r step (Runs-HasNode local_node_id p run)
