-- ===== src/Core/Routes.antt =====
-- What a route carries.
use jq_ble.Prelude.{ℕ}
use jq_ble.Core.Endpoints.{NodeId}

pub data DestinationId : Type 0 where
  to_node : NodeId → DestinationId
  other : ℕ → DestinationId

pub data RouteShapeVisibility : Type 0 where
  explicit_path corridor_envelope next_hop_only opaque : RouteShapeVisibility

pub data TransportDeliveryMode : Type 0 where
  unicast multicast broadcast : TransportDeliveryMode
