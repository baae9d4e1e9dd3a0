-- ===== src/Demo/Attempts.antt =====
-- crates/demo/src/lib.rs, `relay_framed_payload`: the attempts of a relay.
use jq_ble.Prelude.{
  ℕ, zero, suc, ◌+◌, ◌<◌, ◌≡◌, ◌⊎◌, refl, Bool, true, false, Bytes, Result, ok, err, ltb, arith,
  Bool-cases, inl, inr,
}
use jq_ble.Core.Endpoints.{NodeId}
use jq_ble.Client.Task.{BleClientError}
use jq_ble.Demo.Relay.{
  ErrorKinds, RelayClient, relay_retryable, attempted, relay_from, relay_framed_payload,
}

module _ {R T W : Type 0} (kinds : ErrorKinds R T) (client : RelayClient W R T) (to : NodeId)
    (payload : Bytes) where
  -- Sends that fail in a way that may pass, each followed by the interval.
  pub data Tries : ℕ → W → W → Type 0 where
    nothing : (w : W) → Tries 0 w w
    again :
        (n : ℕ) (e : BleClientError R T) (w w1 w' : W)
        → client.send to payload w ≡ (err e, w1)
        → relay_retryable kinds e ≡ true
        → Tries n (client.interval w1) w'
        → Tries (suc n) w w'

  module _ (max_attempts : ℕ) where
    -- How a relay from an attempt on ends, with `r`: after some failures that may pass, it stops at the
    -- first send that succeeds, at the first failure that cannot pass, or at the last attempt.
    pub record Relays (attempt : ℕ) (w : W) (r : Bool × W) : Type 0 where
      pub failures : ℕ
      pub last : W
      pub tried : Tries failures w last
      pub within : failures + attempt < max_attempts
      pub ended :
          ((client.send to payload last ≡ (ok tt, r.1)) × (r.0 ≡ true))
          ⊎ ((e : BleClientError R T) × (client.send to payload last ≡ (err e, r.1))
              × (r.0 ≡ false)
              × ((relay_retryable kinds e ≡ false) ⊎ (suc (failures + attempt) ≡ max_attempts)))

    Relays-again :
        (attempt : ℕ) (e : BleClientError R T) (w w1 : W) (r : Bool × W)
        → client.send to payload w ≡ (err e, w1)
        → relay_retryable kinds e ≡ true
        → Relays (attempt + 1) (client.interval w1) r
        → Relays attempt w r
    Relays-again attempt e w w1 r failed passing s =
        let bound = s.within in
        record {
          failures = suc s.failures;
          last = s.last;
          tried = Tries.again s.failures e w w1 s.last failed passing s.tried;
          within = omega (arith, bound);
          ended = elim s.ended [
            | inl done ↦ inl done
            | inr (e', stuck, lost, inl final) ↦ inr (e', stuck, lost, inl final)
            | inr (e', stuck, lost, inr used) ↦ inr (e', stuck, lost, inr (omega (arith, used)))
          ];
        }

    attempted-Relays :
        (left attempt : ℕ) (w : W) (s : Result (BleClientError R T) (Unit {0}) × W)
        → suc left + attempt ≡ max_attempts
        → client.send to payload w ≡ s
        → ((w : W)
            → 0 < left
            → Relays
                (attempt + 1)
                w
                (relay_from kinds client to payload max_attempts left (attempt + 1) w))
        → Relays attempt w (
            attempted kinds client to payload max_attempts attempt
              (relay_from kinds client to payload max_attempts left (attempt + 1))
              s)
    attempted-Relays left attempt w (ok receipt, w') count sent later = record {
      failures = 0;
      last = w;
      tried = Tries.nothing w;
      within = omega (arith, count);
      ended = inl (sent, refl);
    }
    attempted-Relays left attempt w (err e, w') count sent later =
        elim (Bool-cases (relay_retryable kinds e)) [
          | inl passing ↦ elim (Bool-cases (ltb (attempt + 1) max_attempts)) [
            | inl more ↦
                rw (passing, more, attempted)
                  (Relays-again attempt e w w' _ sent passing
                    (later (client.interval w') (ground (arith, more, count))))
            | inr used ↦
                rw (passing, used, attempted)
                  (record {
                    failures = 0;
                    last = w;
                    tried = Tries.nothing w;
                    within = omega (arith, count);
                    ended = inr (e, sent, refl, inr (ground (arith, used, count)));
                  })
          ]
          | inr final ↦
              rw (final, attempted)
                (record {
                  failures = 0;
                  last = w;
                  tried = Tries.nothing w;
                  within = omega (arith, count);
                  ended = inr (e, sent, refl, inl final);
                })
        ]

    relay_from-Relays :
        (left attempt : ℕ) (w : W)
        → left + attempt ≡ max_attempts
        → 0 < left
        → Relays attempt w (relay_from kinds client to payload max_attempts left attempt w)
    unfolding relay_from
    relay_from-Relays zero attempt w count some_left = absurd (omega (arith, some_left))
    relay_from-Relays (suc left) attempt w count some_left =
        attempted-Relays left attempt w (client.send to payload w) count refl
          (λ w'. λ more. relay_from-Relays left (attempt + 1) w' (omega (arith, count)) more)

    -- A relay with at least one attempt sends until a send succeeds, a failure is not one that may
    -- pass, or the attempts are used up, whichever comes first; it returns true in the first case and
    -- false in the others, and makes no send after that.
    pub relay_framed_payload-Relays :
        (w : W)
        → 0 < max_attempts
        → Relays 0 w (relay_framed_payload kinds client to payload max_attempts w)
    unfolding relay_framed_payload
    relay_framed_payload-Relays w some_attempt =
        relay_from-Relays max_attempts 0 w (omega arith) some_attempt
