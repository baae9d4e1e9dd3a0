-- ===== src/Nodes/Equality.antt =====
-- The derived `PartialEq` of crates/jq-node-profile/src/topology.rs, and of the links it carries.
pub mod Topologies
use jq_ble.Prelude.{
  ◌≡◌, ◌↔◌, Bool, true, false, ◌&&◌, Eq, ◌==◌, nat_eq, list_eq, option_eq, pair_eq, arith,
}
use jq_ble.Core.Endpoints.{id_eq, transport_kind_eq, endpoint_eq}
use jq_ble.Core.Events.{
  Link, LinkRuntimeState, FactSourceClass, RoutingEvidenceClass, OriginAuthenticationClass,
  Observation,
}
use jq_ble.Nodes.Topology.{MeshNodeRole, local_role, remote_role, MeshNode, MeshEdge, local}

abbrev pub runtime_state_beq : LinkRuntimeState → LinkRuntimeState → Bool
runtime_state_beq LinkRuntimeState.active LinkRuntimeState.active = true
runtime_state_beq LinkRuntimeState.faulted LinkRuntimeState.faulted = true
runtime_state_beq (LinkRuntimeState.other m) (LinkRuntimeState.other n) = m == n
runtime_state_beq _ _ = false

pub runtime_state_beq_iff : (a b : LinkRuntimeState) → (runtime_state_beq a b ≡ true) ↔ (a ≡ b)
runtime_state_beq_iff LinkRuntimeState.active b = ground arith
runtime_state_beq_iff LinkRuntimeState.faulted b = ground arith
runtime_state_beq_iff (LinkRuntimeState.other m) b = ground arith

instance abbrev pub runtime_state_eq : Eq LinkRuntimeState
runtime_state_eq = record { beq = runtime_state_beq; decides = runtime_state_beq_iff }

abbrev pub source_beq : FactSourceClass → FactSourceClass → Bool
source_beq FactSourceClass.local FactSourceClass.local = true
source_beq (FactSourceClass.other m) (FactSourceClass.other n) = m == n
source_beq _ _ = false

pub source_beq_iff : (a b : FactSourceClass) → (source_beq a b ≡ true) ↔ (a ≡ b)
source_beq_iff FactSourceClass.local b = ground arith
source_beq_iff (FactSourceClass.other m) b = ground arith

instance abbrev pub source_eq : Eq FactSourceClass
source_eq = record { beq = source_beq; decides = source_beq_iff }

abbrev pub evidence_beq : RoutingEvidenceClass → RoutingEvidenceClass → Bool
evidence_beq RoutingEvidenceClass.direct_observation RoutingEvidenceClass.direct_observation = true
evidence_beq (RoutingEvidenceClass.other m) (RoutingEvidenceClass.other n) = m == n
evidence_beq _ _ = false

pub evidence_beq_iff : (a b : RoutingEvidenceClass) → (evidence_beq a b ≡ true) ↔ (a ≡ b)
evidence_beq_iff RoutingEvidenceClass.direct_observation b = ground arith
evidence_beq_iff (RoutingEvidenceClass.other m) b = ground arith

instance abbrev pub evidence_eq : Eq RoutingEvidenceClass
evidence_eq = record { beq = evidence_beq; decides = evidence_beq_iff }

abbrev pub origin_beq : OriginAuthenticationClass → OriginAuthenticationClass → Bool
origin_beq OriginAuthenticationClass.controlled OriginAuthenticationClass.controlled = true
origin_beq OriginAuthenticationClass.unauthenticated OriginAuthenticationClass.unauthenticated =
    true
origin_beq (OriginAuthenticationClass.other m) (OriginAuthenticationClass.other n) = m == n
origin_beq _ _ = false

pub origin_beq_iff : (a b : OriginAuthenticationClass) → (origin_beq a b ≡ true) ↔ (a ≡ b)
origin_beq_iff OriginAuthenticationClass.controlled b = ground arith
origin_beq_iff OriginAuthenticationClass.unauthenticated b = ground arith
origin_beq_iff (OriginAuthenticationClass.other m) b = ground arith

instance abbrev pub origin_eq : Eq OriginAuthenticationClass
origin_eq = record { beq = origin_beq; decides = origin_beq_iff }

module _ {X : Type 0} ⦃e : Eq X⦄ where
  abbrev pub link_beq : Link X → Link X → Bool
  link_beq a b =
      a.endpoint == b.endpoint && a.runtime_state == b.runtime_state && a.detail == b.detail

  pub link_beq_iff : (a b : Link X) → (link_beq a b ≡ true) ↔ (a ≡ b)
  link_beq_iff a b = ground (
    arith,
    endpoint_eq.decides a.endpoint b.endpoint,
    runtime_state_eq.decides a.runtime_state b.runtime_state,
    e.decides a.detail b.detail,
  )

  instance abbrev pub link_eq : Eq (Link X)
  link_eq = record { beq = link_beq; decides = link_beq_iff }

module _ {T : Type 0} ⦃e : Eq T⦄ where
  abbrev pub observation_beq : Observation T → Observation T → Bool
  observation_beq a b =
      a.value == b.value
      && a.source_class == b.source_class
      && a.evidence_class == b.evidence_class
      && a.origin_authentication == b.origin_authentication
      && a.observed_at_tick == b.observed_at_tick

  pub observation_beq_iff : (a b : Observation T) → (observation_beq a b ≡ true) ↔ (a ≡ b)
  observation_beq_iff a b = ground (
    arith,
    e.decides a.value b.value,
    source_eq.decides a.source_class b.source_class,
    evidence_eq.decides a.evidence_class b.evidence_class,
    origin_eq.decides a.origin_authentication b.origin_authentication,
  )

  instance abbrev pub observation_eq : Eq (Observation T)
  observation_eq = record { beq = observation_beq; decides = observation_beq_iff }

abbrev pub role_beq : MeshNodeRole → MeshNodeRole → Bool
role_beq local_role local_role = true
role_beq remote_role remote_role = true
role_beq _ _ = false

pub role_beq_iff : (a b : MeshNodeRole) → (role_beq a b ≡ true) ↔ (a ≡ b)
role_beq_iff local_role b = ground arith
role_beq_iff remote_role b = ground arith

instance abbrev pub role_eq : Eq MeshNodeRole
role_eq = record { beq = role_beq; decides = role_beq_iff }

module _ {N : Type 0} ⦃e : Eq N⦄ where
  abbrev pub mesh_node_beq : MeshNode N → MeshNode N → Bool
  mesh_node_beq a b = a.node_id == b.node_id && a.role == b.role && a.node == b.node

  pub mesh_node_beq_iff : (a b : MeshNode N) → (mesh_node_beq a b ≡ true) ↔ (a ≡ b)
  mesh_node_beq_iff a b = ground (
    arith,
    id_eq.decides a.node_id b.node_id,
    role_eq.decides a.role b.role,
    e.decides a.node b.node,
  )

  instance abbrev pub mesh_node_eq : Eq (MeshNode N)
  mesh_node_eq = record { beq = mesh_node_beq; decides = mesh_node_beq_iff }

module _ {X : Type 0} ⦃e : Eq X⦄ where
  abbrev pub mesh_edge_beq : MeshEdge X → MeshEdge X → Bool
  mesh_edge_beq a b =
      a.from_node_id == b.from_node_id
      && a.to_node_id == b.to_node_id
      && a.observation == b.observation

  pub mesh_edge_beq_iff : (a b : MeshEdge X) → (mesh_edge_beq a b ≡ true) ↔ (a ≡ b)
  mesh_edge_beq_iff a b = ground (
    arith,
    id_eq.decides a.from_node_id b.from_node_id,
    id_eq.decides a.to_node_id b.to_node_id,
    observation_beq_iff a.observation b.observation,
  )

  instance abbrev pub mesh_edge_eq : Eq (MeshEdge X)
  mesh_edge_eq = record { beq = mesh_edge_beq; decides = mesh_edge_beq_iff }
