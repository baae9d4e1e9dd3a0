-- ===== src/Client/Routing.antt =====
-- crates/jq-client/src/routing.rs: what the router is given at the start, and for each route.
use jq_ble.Prelude.{ℕ, Option, none, some, [], ◌∷◌, Bytes, get, Result}
use jq_ble.Core.Endpoints.{NodeId, TransportKind, LinkEndpoint, id_eq, id_order}
use jq_ble.Core.Events.{
  FactSourceClass, RoutingEvidenceClass, OriginAuthenticationClass, Observation,
}
use jq_ble.Core.Routes.{DestinationId}
use jq_ble.Client.Projector.{Configuration}

-- The classes that the defaults name.
pub data RouteServiceKind : Type 0 where
  move : RouteServiceKind

pub data RouteProtectionClass : Type 0 where
  link_protected : RouteProtectionClass

pub data RouteRepairClass : Type 0 where
  repairable : RouteRepairClass

pub data RoutePartitionClass : Type 0 where
  connected_only : RoutePartitionClass

pub data Permission : Type 0 where
  forbidden allowed : Permission

pub data OperatingMode : Type 0 where
  dense_interactive : OperatingMode

pub data IdentityAssuranceClass : Type 0 where
  controller_bound : IdentityAssuranceClass

pub record ConnectivityPosture : Type 0 where
  pub repair : RouteRepairClass
  pub partition : RoutePartitionClass

pub record RoutingObjective : Type 0 where
  pub destination : DestinationId
  pub service_kind : RouteServiceKind
  pub target_protection : RouteProtectionClass
  pub protection_floor : RouteProtectionClass
  pub target_connectivity : ConnectivityPosture
  pub hold_fallback_policy : Permission
  pub latency_budget_ms : ℕ
  pub protection_priority : ℕ
  pub connectivity_priority : ℕ

abbrev repairable_connected : ConnectivityPosture
repairable_connected = record { repair = repairable; partition = connected_only }

unfoldable pub default_objective : NodeId → RoutingObjective
default_objective destination = record {
  destination = DestinationId.to_node destination;
  service_kind = move;
  target_protection = link_protected;
  protection_floor = link_protected;
  target_connectivity = repairable_connected;
  hold_fallback_policy = forbidden;
  latency_budget_ms = 250;
  protection_priority = 10;
  connectivity_priority = 20;
}

pub record SelectedRoutingParameters : Type 0 where
  pub selected_protection : RouteProtectionClass
  pub selected_connectivity : ConnectivityPosture
  pub deployment_profile : OperatingMode
  pub diversity_floor : ℕ
  pub routing_engine_fallback_policy : Permission
  pub route_replacement_policy : Permission

abbrev pub default_profile : SelectedRoutingParameters
default_profile = record {
  selected_protection = link_protected;
  selected_connectivity = repairable_connected;
  deployment_profile = dense_interactive;
  diversity_floor = 1;
  routing_engine_fallback_policy = forbidden;
  route_replacement_policy = allowed;
}

-- The scores are in thousandths.
pub record RoutingPolicyInputs (N A : Type 0) : Type 0 where
  pub local_node : Observation N
  pub local_environment : Observation A
  pub routing_engine_count : ℕ
  pub median_rtt_ms : ℕ
  pub loss_permille : ℕ
  pub partition_risk_permille : ℕ
  pub adversary_pressure_permille : ℕ
  pub identity_assurance : IdentityAssuranceClass
  pub direct_reachability_score : ℕ

abbrev observed_with : {N X V B : Type 0} → Observation (Configuration N X V) → B → Observation B
observed_with topology value = record {
  value = value;
  source_class = topology.source_class;
  evidence_class = topology.evidence_class;
  origin_authentication = topology.origin_authentication;
  observed_at_tick = topology.observed_at_tick;
}

-- `N` is a node and `X` the carried part of a link; `V` is the rest of a configuration, of which
-- `environment` reads the environment `A`.
module _ {N X V A : Type 0} where
  abbrev pub inputs_for :
      (V → A) → Observation (Configuration N X V) → Option N → Option (RoutingPolicyInputs N A)
  inputs_for environment topology none = none
  inputs_for environment topology (some node) = some (record {
    local_node = observed_with topology node;
    local_environment = observed_with topology (environment topology.value.rest);
    routing_engine_count = 1;
    median_rtt_ms = 40;
    loss_permille = 50;
    partition_risk_permille = 150;
    adversary_pressure_permille = 25;
    identity_assurance = controller_bound;
    direct_reachability_score = 900;
  })

  -- `none` is the panic of the index `nodes[&local_node_id]`.
  unfoldable pub policy_inputs_for :
      (V → A) → Observation (Configuration N X V) → NodeId → Option (RoutingPolicyInputs N A)
  policy_inputs_for environment topology local_node_id =
      inputs_for environment topology (get local_node_id topology.value.nodes)

-- `opaque_endpoint` and the node preset are parameters, and `rest` is epoch 1 with an environment of
-- zeroes.
unfoldable pub initial_topology :
    {N X V : Type 0}
    → (TransportKind → Bytes → ℕ → LinkEndpoint)
    → (NodeId → LinkEndpoint → ℕ → N)
    → V
    → NodeId
    → ℕ
    → Observation (Configuration N X V)
initial_topology opaque_endpoint route_capable_node rest local_node_id observed_at_tick =
    let endpoint = opaque_endpoint TransportKind.ble_gatt local_node_id.bytes 512 in
    record {
      value = record {
        nodes = (local_node_id, route_capable_node local_node_id endpoint observed_at_tick) ∷ [];
        links = [];
        rest = rest;
      };
      source_class = FactSourceClass.local;
      evidence_class = RoutingEvidenceClass.direct_observation;
      origin_authentication = OriginAuthenticationClass.controlled;
      observed_at_tick = observed_at_tick;
    }

-- Over the router's constructor and the registration of Mercator; `none` is the panic of
-- `policy_inputs_for`.
unfoldable pub build_router :
    {N X V A W R : Type 0}
    → (V → A)
    → (NodeId
        → SelectedRoutingParameters
        → Observation (Configuration N X V)
        → RoutingPolicyInputs N A
        → W)
    → (NodeId → W → Result R W)
    → NodeId
    → Observation (Configuration N X V)
    → Option (Result R W)
unfolding policy_inputs_for
build_router environment new_router register_mercator local_node_id topology =
    elim (policy_inputs_for environment topology local_node_id) [
      | none ↦ none
      | some inputs ↦ some (
          register_mercator local_node_id
            (new_router local_node_id default_profile topology inputs))
    ]
