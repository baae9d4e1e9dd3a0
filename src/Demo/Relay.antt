-- ===== src/Demo/Relay.antt =====
-- crates/demo/src/lib.rs, `relay_framed_payload`. The client's `send` is a parameter with state `W`,
-- which passes the interval between two attempts as well; `R` and `T` are errors of routes and of the
-- transport.
use jq_ble.Prelude.{
  ℕ, zero, suc, ◌+◌, Bool, true, false, ◌&&◌, ◌||◌, Bytes, Option, none, some, Result, ok, err, ltb,
}
use jq_ble.Core.Endpoints.{NodeId}
use jq_ble.Client.Bridge.{BleBridgeError}
use jq_ble.Client.Task.{BleClientError}

-- How the errors of `jacquard_core` are matched: `RouteSelectionError::NoCandidate`, the transport
-- error that a route error holds, and `Unavailable | TimedOut`.
pub record ErrorKinds (R T : Type 0) : Type 0 where
  pub is_no_candidate : R → Bool
  pub transport_of : R → Option T
  pub is_transient : T → Bool

-- `interval` is the sleep.
pub record RelayClient (W R T : Type 0) : Type 0 where
  pub send : NodeId → Bytes → W → Result (BleClientError R T) (Unit {0}) × W
  pub interval : W → W

module _ {R T : Type 0} (kinds : ErrorKinds R T) where
  abbrev is_transient_in : Option T → Bool
  is_transient_in none = false
  is_transient_in (some t) = kinds.is_transient t

  unfoldable pub relay_retryable : BleClientError R T → Bool
  relay_retryable (BleClientError.route_error e) =
      kinds.is_no_candidate e || is_transient_in (kinds.transport_of e)
  relay_retryable (BleClientError.transport_error t) = kinds.is_transient t
  relay_retryable (BleClientError.bridge_error (BleBridgeError.route e)) =
      is_transient_in (kinds.transport_of e)
  relay_retryable (BleClientError.bridge_error (BleBridgeError.transport t)) = kinds.is_transient t
  relay_retryable (BleClientError.bridge_error BleBridgeError.panic) = false
  relay_retryable (BleClientError.delivery_admission rejection) = false
  relay_retryable BleClientError.panic = false

  module _ {W : Type 0} (client : RelayClient W R T) (destination_node_id : NodeId)
      (payload : Bytes) (max_attempts : ℕ) where
    -- An attempt, `again` being the rest of the loop after the sleep.
    abbrev pub attempted :
        ℕ → (W → Bool × W) → Result (BleClientError R T) (Unit {0}) × W → Bool × W
    attempted attempt again (ok receipt, w) = (true, w)
    attempted attempt again (err e, w) =
        elim (relay_retryable e && ltb (attempt + 1) max_attempts) [
          | true ↦ again (client.interval w)
          | false ↦ (false, w)
        ]

    -- The loop from an attempt on, with the number of attempts that are left.
    unfoldable pub relay_from : ℕ → ℕ → W → Bool × W
    unfolding relay_retryable
    relay_from zero attempt w = (false, w)
    relay_from (suc left) attempt w =
        attempted attempt (relay_from left (attempt + 1))
          (client.send destination_node_id payload w)

    unfoldable pub relay_framed_payload : W → Bool × W
    unfolding relay_from
    relay_framed_payload w = relay_from max_attempts 0 w
