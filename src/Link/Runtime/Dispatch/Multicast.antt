-- ===== src/Link/Runtime/Dispatch/Multicast.antt =====
-- Which subscribers a multicast command notifies.
use jq_ble.Prelude.{
  ◌≡◌, refl, sym, ap, subst, ◌∙◌, false, some, List, [], ◌∷◌, arith, ◌==◌, nat_eq, nat_order,
  list_eq, list_beq_iff, Map, get, keys, has, get-insert, contains, is_some, IsSorted, Above,
  Bool-cases, inl, inr,
}
use jq_ble.Core.Endpoints.{NodeId, DeviceId, id_eq, id_order, id_beq_iff}
use jq_ble.Link.Sessions.{PeerSessions}
use jq_ble.Link.Host.{Platform}
use jq_ble.Link.Runtime.Dispatch.{
  to_set, subscribed_nodes, subscriber_of, platform_notify_device_ids,
}

keys-has : {V : Type 0} (m : Map NodeId V) (n : NodeId) → contains (keys m) n ≡ has n m
unfolding get contains
keys-has [] n = refl
keys-has ((j, v) ∷ m) n = ground (arith, keys-has m n)

has-to_set : (rs : List NodeId) (n : NodeId) → has n (to_set rs) ≡ contains rs n
unfolding get contains
has-to_set [] n = refl
has-to_set (r ∷ rs) n = rw (get-insert r n tt (to_set rs)) (ground (arith, has-to_set rs n))

contains-to_set : (rs : List NodeId) (n : NodeId) → contains (keys (to_set rs)) n ≡ contains rs n
contains-to_set rs n = keys-has (to_set rs) n ∙ has-to_set rs n

subscribed_below :
    (m : Map NodeId PeerSessions) (n : NodeId) → Above n m → contains (subscribed_nodes m) n ≡ false
unfolding contains
subscribed_below [] n a = refl
subscribed_below ((j, p) ∷ m) n a =
    ground (arith, subscribed_below m n a.1, id_beq_iff j n, id_order.less_irrefl n)

contains-subscribed_nodes :
    (m : Map NodeId PeerSessions) (n : NodeId)
    → IsSorted m
    → contains (subscribed_nodes m) n ≡ is_some (subscriber_of (get n m))
unfolding get contains
contains-subscribed_nodes [] n s = refl
contains-subscribed_nodes ((j, p) ∷ m) n s = elim (Bool-cases (j == n)) [
  | inl same ↦
      let below : contains (subscribed_nodes m) n ≡ false =
        subscribed_below m n (subst (λ i. Above i m) ((id_beq_iff j n).0 same) s.0) in
      ground (arith, same, below)
  | inr differ ↦ ground (arith, differ, contains-subscribed_nodes m n s.1)
]

-- Where the platform can only notify every subscriber at once (Linux), a multicast is sent only if the
-- receivers are exactly the nodes that have a subscriber: no node outside the receivers is notified,
-- and no receiver is left out.
pub platform_notify_device_ids-linux :
    (m : Map NodeId PeerSessions) (receivers : List NodeId) (ids targets : List DeviceId)
    (n : NodeId)
    → IsSorted m
    → platform_notify_device_ids Platform.linux m receivers ids ≡ some targets
    → contains receivers n ≡ is_some (subscriber_of (get n m))
unfolding platform_notify_device_ids
platform_notify_device_ids-linux m receivers ids targets n sorted sent =
    elim (Bool-cases (keys (to_set receivers) == keys (to_set (subscribed_nodes m)))) [
      | inl same ↦
          sym (contains-to_set receivers n)
          ∙ ap (λ (ks : List NodeId). contains ks n) ((list_beq_iff _ _).0 same)
          ∙ contains-to_set (subscribed_nodes m) n
          ∙ contains-subscribed_nodes m n sorted
      | inr differ ↦ ground (arith, differ, sent)
    ]
