-- ===== src/Client/Task/Incoming.antt =====
-- crates/jq-client/src/client.rs, `publish_incoming`: the payloads that reach the application.
use jq_ble.Prelude.{ℕ, ◌≡◌, Bytes}
use jq_ble.Core.Endpoints.{NodeId, LinkEndpoint}
use jq_ble.Core.Events.{TransportObservation}
use jq_ble.Client.Framing.{encode_client_payload}

module _ {X : Type 0} where
  -- The observation of a framed payload.
  abbrev pub Receives : NodeId → Bytes → TransportObservation X → Type 0
  Receives from payload o =
      (endpoint : LinkEndpoint) × ((tick : ℕ) × (o
          ≡ TransportObservation.payload_received from endpoint (encode_client_payload payload)
              tick))
