-- ===== src/Client/Projector.antt =====
-- crates/jq-client/src/projector.rs, `TopologyProjector`. Its counterpart in `jacquard_host_support`
-- is a parameter with state `H`; `V` is the part of a configuration that is only carried (epoch and
-- environment), `Caps` an engine's capabilities, `M` a materialized route, `O` a round's outcome.
pub mod Freshness
pub mod Runs
use jq_ble.Prelude.{
  ℕ, Bool, true, false, not, ◌||◌, some, [], ◌∷◌, Eq, ◌==◌, option_eq, ltb, Map, get, has, insert,
  if◌then◌else◌, pair_eq, pair_order,
}
use jq_ble.Core.Endpoints.{NodeId, LinkEndpoint, id_eq, id_order}
use jq_ble.Core.Events.{Link, Observation, TransportObservation}
use jq_ble.Nodes.Topology.{MeshTopology}
use jq_ble.Client.Snapshot.{TopologySnapshot, EdgeObservations, mesh_snapshot_from}

pub record Configuration (N X V : Type 0) : Type 0 where
  pub nodes : Map NodeId N
  pub links : Map (NodeId × NodeId) (Link X)
  pub rest : V

pub record HostProjector (N X G V Caps M O H : Type 0) : Type 0 where
  pub new : NodeId → Observation (Configuration N X V) → H
  pub snapshot : H → TopologySnapshot N X G
  pub ingest_topology : Observation (Configuration N X V) → H → H
  pub ingest_engine_capabilities : Caps → H → H
  pub ingest_materialized_route : M → H → H
  pub ingest_round_outcome : O → H → H
  -- `NodePreset::route_capable_for_engines` for Mercator, with the node's own bytes as its
  -- controller.
  pub route_capable_node : NodeId → LinkEndpoint → ℕ → N

pub record TopologyProjector (N X G V H : Type 0) : Type 0 where
  pub topology : Observation (Configuration N X V)
  pub edge_observations : EdgeObservations X
  pub host_projector : H
  pub snapshot : MeshTopology N X G

-- The instances are the derived `PartialEq` of the library's types.
module _ {N X G V Caps M O H : Type 0} (host : HostProjector N X G V Caps M O H)
    ⦃same_link : Eq (Link X)⦄ ⦃same_observation : Eq (Observation (Link X))⦄
    ⦃same_mesh : Eq (MeshTopology N X G)⦄ where
  abbrev pub observed_links :
      Observation (Configuration N X V) → Map (NodeId × NodeId) (Link X) → EdgeObservations X
  observed_links topology [] = []
  observed_links topology ((k, link) ∷ rest) =
      let observation : Observation (Link X) = record {
        value = link;
        source_class = topology.source_class;
        evidence_class = topology.evidence_class;
        origin_authentication = topology.origin_authentication;
        observed_at_tick = topology.observed_at_tick;
      } in
      (k, observation) ∷ observed_links topology rest

  unfoldable pub new_projector :
      NodeId → Observation (Configuration N X V) → TopologyProjector N X G V H
  new_projector local_node_id initial_topology =
      let edge_observations = observed_links initial_topology initial_topology.value.links in
      let host_projector = host.new local_node_id initial_topology in
      record {
        topology = initial_topology;
        edge_observations = edge_observations;
        host_projector = host_projector;
        snapshot = mesh_snapshot_from edge_observations (host.snapshot host_projector);
      }

  -- The snapshot that the parts of a projector give.
  abbrev pub next_snapshot : TopologyProjector N X G V H → MeshTopology N X G
  next_snapshot p = mesh_snapshot_from p.edge_observations (host.snapshot p.host_projector)

  unfoldable pub refresh_snapshot : TopologyProjector N X G V H → Bool × TopologyProjector N X G V H
  refresh_snapshot p =
      if next_snapshot p == p.snapshot
      then (false, p)
      else (true, record p { snapshot = next_snapshot p })

  unfoldable pub ingest_engine_capabilities :
      Caps → TopologyProjector N X G V H → Bool × TopologyProjector N X G V H
  unfolding refresh_snapshot
  ingest_engine_capabilities capabilities p =
      refresh_snapshot (record p {
        host_projector = host.ingest_engine_capabilities capabilities p.host_projector;
      })

  unfoldable pub ingest_materialized_route :
      M → TopologyProjector N X G V H → Bool × TopologyProjector N X G V H
  unfolding refresh_snapshot
  ingest_materialized_route route p =
      refresh_snapshot
        (record p { host_projector = host.ingest_materialized_route route p.host_projector })

  unfoldable pub ingest_round_outcome :
      O → TopologyProjector N X G V H → Bool × TopologyProjector N X G V H
  unfolding refresh_snapshot
  ingest_round_outcome outcome p =
      refresh_snapshot
        (record p { host_projector = host.ingest_round_outcome outcome p.host_projector })

  -- The rest of the steps act on the configuration.
  unfoldable pub bump_topology_tick :
      ℕ → Observation (Configuration N X V) → Bool × Observation (Configuration N X V)
  bump_topology_tick tick topology =
      if ltb topology.observed_at_tick tick
      then (true, record topology { observed_at_tick = tick })
      else (false, topology)

  unfoldable pub ensure_remote_node :
      NodeId
      → LinkEndpoint
      → ℕ
      → Observation (Configuration N X V)
      → Bool × Observation (Configuration N X V)
  ensure_remote_node remote_node_id endpoint tick topology =
      if has remote_node_id topology.value.nodes
      then (false, topology)
      else let node = host.route_capable_node remote_node_id endpoint tick in
        let nodes = insert remote_node_id node topology.value.nodes in
        (true, record topology { value = record topology.value { nodes = nodes } })

  abbrev pub insert_link :
      NodeId × NodeId
      → Link X
      → Observation (Configuration N X V)
      → Observation (Configuration N X V)
  insert_link key link topology = record topology {
    value = record topology.value { links = insert key link topology.value.links };
  }

  unfoldable pub observe_link :
      NodeId
      → Observation (Link X)
      → TopologyProjector N X G V H
      → Bool × TopologyProjector N X G V H
  unfolding bump_topology_tick ensure_remote_node
  observe_link remote_node_id o p =
      let (ticked, topology1) = bump_topology_tick o.observed_at_tick p.topology in
      let (added, topology2) =
        ensure_remote_node remote_node_id o.value.endpoint o.observed_at_tick topology1 in
      let key : NodeId × NodeId = (p.snapshot.local_node_id, remote_node_id) in
      let previous_link = get key topology2.value.links in
      let previous_observation = get key p.edge_observations in
      let relinked = not (previous_link == some o.value) || not (previous_observation == some o) in
      let next : TopologyProjector N X G V H = record p {
        topology = insert_link key o.value topology2;
        edge_observations = insert key o p.edge_observations;
      } in
      (ticked || added || relinked, next)

  unfoldable pub observe :
      TransportObservation X → TopologyProjector N X G V H → Bool × TopologyProjector N X G V H
  unfolding observe_link
  observe (TransportObservation.payload_received from endpoint payload tick) p =
      let (changed, topology) = bump_topology_tick tick p.topology in
      (changed, record p { topology = topology })
  observe (TransportObservation.link_observed remote_node_id o) p = observe_link remote_node_id o p

  unfoldable pub ingest_transport_observation :
      TransportObservation X → TopologyProjector N X G V H → Bool × TopologyProjector N X G V H
  unfolding observe refresh_snapshot
  ingest_transport_observation observation p =
      let (changed, p1) = observe observation p in
      if not changed
      then (false, p1)
      else refresh_snapshot
          (record p1 { host_projector = host.ingest_topology p1.topology p1.host_projector })
