-- ===== src/Core/Events.antt =====
-- Links, what the transport reports of them, and what the router asks the transport to send.
use jq_ble.Prelude.{ℕ, List, Bytes}
use jq_ble.Core.Endpoints.{NodeId, MulticastGroupId, LinkEndpoint}

pub data LinkRuntimeState : Type 0 where
  active faulted : LinkRuntimeState
  other : ℕ → LinkRuntimeState

-- `X` stands for the profile of a link and the rest of its runtime state, which is only carried.
pub record Link (X : Type 0) : Type 0 where
  pub endpoint : LinkEndpoint
  pub runtime_state : LinkRuntimeState
  pub detail : X

pub data FactSourceClass : Type 0 where
  local : FactSourceClass
  other : ℕ → FactSourceClass

pub data RoutingEvidenceClass : Type 0 where
  direct_observation : RoutingEvidenceClass
  other : ℕ → RoutingEvidenceClass

pub data OriginAuthenticationClass : Type 0 where
  controlled unauthenticated : OriginAuthenticationClass
  other : ℕ → OriginAuthenticationClass

-- `Observation<T>`.
pub record Observation (T : Type 0) : Type 0 where
  pub value : T
  pub source_class : FactSourceClass
  pub evidence_class : RoutingEvidenceClass
  pub origin_authentication : OriginAuthenticationClass
  pub observed_at_tick : ℕ

pub data TransportIngressEvent (X : Type 0) : Type 0 where
  payload_received : NodeId → LinkEndpoint → Bytes → TransportIngressEvent X
  link_observed :
      NodeId
      → Link X
      → FactSourceClass
      → RoutingEvidenceClass
      → OriginAuthenticationClass
      → TransportIngressEvent X

pub data TransportObservation (X : Type 0) : Type 0 where
  payload_received : NodeId → LinkEndpoint → Bytes → ℕ → TransportObservation X
  link_observed : NodeId → Observation (Link X) → TransportObservation X

pub data TransportDeliveryIntent : Type 0 where
  unicast : LinkEndpoint → TransportDeliveryIntent
  multicast : LinkEndpoint → MulticastGroupId → List NodeId → TransportDeliveryIntent
  broadcast : LinkEndpoint → TransportDeliveryIntent
