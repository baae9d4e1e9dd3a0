-- ===== src/Client/Multicast/Subscribers.antt =====
-- Who is a subscriber, and whom a multicast is admitted for.
use jq_ble.Prelude.{
  ℕ, ◌≡◌, ◌≢◌, refl, ap, ◌∙◌, Bool, true, false, not, ◌&&◌, Option, none, some, List, [], ◌∷◌, ◌==◌,
  nat_eq, get, has, get-insert, get-remove, any, All, if◌then◌else◌, inl, inr, arith, Bool-cases,
}
use jq_ble.Core.Endpoints.{NodeId, MulticastGroupId, id_eq, id_order, endpoint_eq}
use jq_ble.Core.Events.{TransportObservation}
use jq_ble.Link.Gatt.{gatt_notify_fanout_endpoint}
use jq_ble.Client.Multicast.{
  MulticastAdmission, is_faulted, ingest_transport_observation, Cast, TransportDeliverySupport,
  gatt_notify_multicast_support, support_for, ok_or_unsupported, multicast_of,
  MulticastDeliverySupport,
}

module _ {X : Type 0} where
  abbrev pub ingest_all : MulticastAdmission → List (TransportObservation X) → MulticastAdmission
  ingest_all a [] = a
  ingest_all a (o ∷ rest) = ingest_all (ingest_transport_observation a o) rest

  -- What an observation leaves of the tick at which a node was last seen to subscribe.
  abbrev pub seen_after : NodeId → Option ℕ → TransportObservation X → Option ℕ
  seen_after n before (TransportObservation.payload_received from e bytes tick) = before
  seen_after n before (TransportObservation.link_observed m o) =
      if m == n && o.value.endpoint == gatt_notify_fanout_endpoint
      then if is_faulted o.value.runtime_state then none else some o.observed_at_tick
      else before

  abbrev pub last_seen : NodeId → Option ℕ → List (TransportObservation X) → Option ℕ
  last_seen n before [] = before
  last_seen n before (o ∷ rest) = last_seen n (seen_after n before o) rest

  get-ingest :
      (a : MulticastAdmission) (o : TransportObservation X) (n : NodeId)
      → get n (ingest_transport_observation a o).subscribers ≡ seen_after n (get n a.subscribers) o
  unfolding ingest_transport_observation
  get-ingest a (TransportObservation.payload_received from e bytes tick) n = refl
  get-ingest a (TransportObservation.link_observed m o) n =
      ground (arith, get-remove m n a.subscribers, get-insert m n o.observed_at_tick a.subscribers)

  -- After any observations, a node is a subscriber exactly if the last fanout link observed of it was
  -- not faulted (or, without one, if it was a subscriber before), at the tick of that observation;
  -- payloads, other links and other nodes have no part in it.
  pub get-ingest_all :
      (a : MulticastAdmission) (os : List (TransportObservation X)) (n : NodeId)
      → get n (ingest_all a os).subscribers ≡ last_seen n (get n a.subscribers) os
  get-ingest_all a [] n = refl
  get-ingest_all a (o ∷ os) n =
      get-ingest_all (ingest_transport_observation a o) os n
      ∙ ap (λ before. last_seen n before os) (get-ingest a o n)

any-All :
    (f : NodeId → Bool) (ns : List NodeId)
    → any (λ n. not (f n)) ns ≡ false
    → All (λ n. f n ≡ true) ns
any-All f [] e = tt
any-All f (n ∷ ns) e = elim (Bool-cases (f n)) [
  | inl holds ↦ (holds, any-All f ns (rw holds at e))
  | inr fails ↦ cc (rw fails at e)
]

module _ {E G : Type 0} (c : Cast E G) where
  endpoint-ok_or_unsupported :
      (found : Option (MulticastDeliverySupport G)) (s : TransportDeliverySupport)
      → ok_or_unsupported c (multicast_of c found) ≡ inl s
      → s.endpoint ≡ gatt_notify_fanout_endpoint
  endpoint-ok_or_unsupported none s e = cc
  endpoint-ok_or_unsupported (some support) s e = ground (arith, e)

  -- Whatever the evidence shaping answers, a multicast is admitted only to the fanout endpoint, for
  -- at least one receiver, and only if every receiver is a subscriber.
  pub support_for-subscribed :
      (a : MulticastAdmission) (n : NodeId) (g : MulticastGroupId) (receivers : List NodeId)
      (s : TransportDeliverySupport)
      → support_for c a n g receivers ≡ inl s
      → (receivers ≢ [])
        × All (λ r. has r a.subscribers ≡ true) receivers
        × (s.endpoint ≡ gatt_notify_fanout_endpoint)
  unfolding support_for gatt_notify_multicast_support
  support_for-subscribed a n g [] s e = cc
  support_for-subscribed a n g (r ∷ rs) s e =
      elim (Bool-cases (any (λ x. not (has x a.subscribers)) (r ∷ rs))) [
        | inl missing ↦ cc (rw missing at e)
        | inr present ↦ (
          λ is_nil. cc,
          any-All (λ x. has x a.subscribers) (r ∷ rs) present,
          endpoint-ok_or_unsupported _ s (rw present at e),
        )
      ]
