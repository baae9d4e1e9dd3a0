-- ===== src/Client/Task/Receipts.antt =====
-- crates/jq-client/src/client.rs: what a send returns, caches and publishes.
use jq_ble.Prelude.{
  Map, get, insert, remove, get-insert, get-remove, beq_refl, ◌≡◌, refl, sym, ap, ◌∙◌, subst, Bool,
  Option, none, some, Bytes, Result, ok, err, Eq, ◌==◌, inl, inr, Bool-cases,
}
use jq_ble.Prelude.Actions.{pure, continue, ◌>>=◌, ◌>>◌, Ends, Ends-map, Ends-bind}
use jq_ble.Core.Endpoints.{NodeId, LinkEndpoint, id_eq, id_order}
use jq_ble.Core.Routes.{TransportDeliveryMode}
use jq_ble.Core.Events.{Link, Observation, TransportDeliveryIntent}
use jq_ble.Link.Cast.{UnicastCast}
use jq_ble.Nodes.Topology.{MeshTopology, MeshEdge, topology_edge}
use jq_ble.Client.Bridge.{BridgeHost, RouterRoundOutcome}
use jq_ble.Client.Projector.{HostProjector, ingest_materialized_route}
use jq_ble.Client.Routing.{default_objective}
use jq_ble.Client.Task.Frame.{drive_bridge_round-Frame, publish_if-Frame}
use jq_ble.Client.Task.Sends.{
  JacquardBleSendReceipt, mode_of, endpoint_of, send_receipt, command_for_route,
  queue_transport_command, cached_forwarded, forward_cached, try_cached_forward, activate, cache,
  activate_and_forward, or_activate, handle_send, forward, driven, no_route_candidate, command_to,
  sent, forwarded, routed,
}
use jq_ble.Client.Task.{CachedRoute, BleClientError, RouterHost, ClientTask, publish_if}

abbrev pub RouteCache : Type 0
RouteCache = Map NodeId CachedRoute

-- The cached commands are unicasts.
abbrev pub IsUnicastCache : RouteCache → Type 0
IsUnicastCache m =
    (k : NodeId) (c : CachedRoute)
    → get k m ≡ some c
    → (endpoint : LinkEndpoint) × (c.command.intent ≡ TransportDeliveryIntent.unicast endpoint)

insert-IsUnicastCache :
    (to : NodeId) (c : CachedRoute) (endpoint : LinkEndpoint) (m : RouteCache)
    → c.command.intent ≡ TransportDeliveryIntent.unicast endpoint
    → IsUnicastCache m
    → IsUnicastCache (insert to c m)
insert-IsUnicastCache to c endpoint m unicast u k d found = elim (Bool-cases (to == k)) [
  | inl here ↦
      let same : c ≡ d = cc (rw here at (sym (get-insert to k c m) ∙ found)) in
      (endpoint, ap (λ (x : CachedRoute). x.command.intent) (sym same) ∙ unicast)
  | inr elsewhere ↦ u k d (rw elsewhere at (sym (get-insert to k c m) ∙ found))
]

inserted : (to : NodeId) (c : CachedRoute) (m : RouteCache) → get to (insert to c m) ≡ some c
inserted to c m = rw (get-insert to to c m) (rw (beq_refl to) refl)

remove-IsUnicastCache :
    (to : NodeId) (m : RouteCache) → IsUnicastCache m → IsUnicastCache (remove to m)
remove-IsUnicastCache to m u k d found = elim (Bool-cases (to == k)) [
  | inl here ↦ absurd (cc (rw here at (sym (get-remove to k m) ∙ found)))
  | inr elsewhere ↦ u k d (rw elsewhere at (sym (get-remove to k m) ∙ found))
]

-- The entry that a receipt describes.
abbrev pub entry_of : JacquardBleSendReceipt → CachedRoute
entry_of r = record {
  route_id = r.route_id;
  command = record {
    next_hop_node_id = r.next_hop_node_id;
    intent = TransportDeliveryIntent.unicast r.endpoint;
  };
}

-- A receipt of a send to `to`, and the cache after it.
abbrev pub Remembers : NodeId → JacquardBleSendReceipt → RouteCache → Type 0
Remembers to r m =
    (r.destination_node_id ≡ to)
    × (r.delivery_mode ≡ TransportDeliveryMode.unicast)
    × (get to m ≡ some (entry_of r))
    × IsUnicastCache m

receipt-Remembers :
    (to : NodeId) (c : CachedRoute) (m : RouteCache) (endpoint : LinkEndpoint)
    → c.command.intent ≡ TransportDeliveryIntent.unicast endpoint
    → get to m ≡ some c
    → IsUnicastCache m
    → Remembers to (send_receipt to c.route_id c.command) m
unfolding send_receipt
receipt-Remembers to c m endpoint unicast found u =
    let described =
      unicast
      ∙ ap (λ (i : TransportDeliveryIntent). TransportDeliveryIntent.unicast (endpoint_of i))
          (sym unicast) in
    let filled : (i : TransportDeliveryIntent) → Option CachedRoute = λ i. some (record {
      route_id = c.route_id;
      command = record { next_hop_node_id = c.command.next_hop_node_id; intent = i };
    }) in
    (refl, ap mode_of unicast, found ∙ ap filled described, u)

module _ {E W X P R T N G V A Caps M H : Type 0} (bridge_host : BridgeHost W X P R T)
    (cast : UnicastCast E X)
    (projector_host : HostProjector N X G V Caps M (RouterRoundOutcome P) H)
    (router : RouterHost W N X V A R T M) ⦃same_link : Eq (Link X)⦄
    ⦃same_observation : Eq (Observation (Link X))⦄ ⦃same_mesh : Eq (MeshTopology N X G)⦄ where
  abbrev Task : Type 0
  Task = ClientTask W X N G V H

  -- A promise about the cache.
  abbrev pub Caches : (RouteCache → Type 0) → {B : Type 0} → B → Task → Type 0
  Caches P a t = P t.route_cache

  abbrev Frames : Task → {B : Type 0} → Result (BleClientError R T) B × Task → Type 0
  Frames t r =
      Ends (λ a t'. t'.route_cache ≡ t.route_cache) (λ e t'. t'.route_cache ≡ t.route_cache) r

  Frames-Caches :
      (P : RouteCache → Type 0) {B : Type 0} (t : Task) (r : Result (BleClientError R T) B × Task)
      → Frames t r
      → P t.route_cache
      → Ends (Caches P) (Caches P) r
  Frames-Caches P t r f h = Ends-map (λ a t' s. subst P (sym s) h) (λ e t' s. subst P (sym s) h) r f

  sent-Frames :
      (t : Task) (r : Option T × W) → Frames t (sent bridge_host cast projector_host router t r)
  sent-Frames t (none, w) = refl
  sent-Frames t (some e, w) = refl

  forwarded-Frames :
      (t : Task) (r : Option R × W)
      → Frames t (forwarded bridge_host cast projector_host router t r)
  forwarded-Frames t (none, w) = refl
  forwarded-Frames t (some e, w) = refl

  routed-Frames :
      (t : Task) (r : Result R M × W) → Frames t (routed bridge_host cast projector_host router t r)
  routed-Frames t (ok route, w) = refl
  routed-Frames t (err e, w) = refl

  queue-Frames :
      (intent : TransportDeliveryIntent) (payload : Bytes) (t : Task)
      → Frames t (queue_transport_command bridge_host cast projector_host router intent payload t)
  unfolding queue_transport_command
  queue-Frames intent payload t =
      sent-Frames t (router.send_transport_to intent payload t.bridge.world)

  -- The command of a route is a unicast.
  command-Caches :
      (route : M) (t : Task)
      → IsUnicastCache t.route_cache
      → Ends
          (λ q t'.
            ((endpoint : LinkEndpoint) × (q.intent ≡ TransportDeliveryIntent.unicast endpoint))
            × IsUnicastCache t'.route_cache)
          (Caches IsUnicastCache)
          (command_for_route bridge_host cast projector_host router route t)
  unfolding command_for_route
  command-Caches route t u = hopped (router.selected_neighbor route)
    where
      edged :
          (next_hop : NodeId) (o : Option (MeshEdge X))
          → Ends
              (λ q t'.
                ((endpoint : LinkEndpoint) × (q.intent ≡ TransportDeliveryIntent.unicast endpoint))
                × IsUnicastCache t'.route_cache)
              (Caches IsUnicastCache)
              (continue
                (λ edge. pure (command_to bridge_host cast projector_host router next_hop edge))
                (no_route_candidate bridge_host cast projector_host router o t))
      edged next_hop none = u
      edged next_hop (some edge) = ((edge.observation.value.endpoint, refl), u)

      hopped :
          (o : Option NodeId)
          → Ends
              (λ q t'.
                ((endpoint : LinkEndpoint) × (q.intent ≡ TransportDeliveryIntent.unicast endpoint))
                × IsUnicastCache t'.route_cache)
              (Caches IsUnicastCache)
              (continue
                (λ next_hop t1.
                  continue
                    (λ edge. pure (command_to bridge_host cast projector_host router next_hop edge))
                    (no_route_candidate bridge_host cast projector_host router
                      (topology_edge t1.projector.snapshot t1.local_node_id next_hop)
                      t1))
                (no_route_candidate bridge_host cast projector_host router o t))
      hopped none = u
      hopped (some next_hop) =
          edged next_hop (topology_edge t.projector.snapshot t.local_node_id next_hop)

  -- The cache holds `c` for the destination.
  abbrev Holds : NodeId → CachedRoute → RouteCache → Type 0
  Holds to c m = (get to m ≡ some c) × IsUnicastCache m

  lose :
      (to : NodeId) (c : CachedRoute) {B : Type 0} (r : Result (BleClientError R T) B × Task)
      → Ends (Caches (Holds to c)) (Caches (Holds to c)) r
      → Ends (Caches (Holds to c)) (Caches IsUnicastCache) r
  lose to c r h = Ends-map (λ a t k. k) (λ e t k. k.1) r h

  module _ (to : NodeId) (payload : Bytes) where
    abbrev Sends : Result (BleClientError R T) JacquardBleSendReceipt × Task → Type 0
    Sends r = Ends (λ receipt t. Remembers to receipt t.route_cache) (Caches IsUnicastCache) r

    drive_holding :
        (c : CachedRoute) (t : Task)
        → Holds to c t.route_cache
        → Ends
            (Caches (Holds to c))
            (Caches IsUnicastCache)
            (driven bridge_host cast projector_host router t)
    drive_holding c t h = lose to c _ (
        Frames-Caches (Holds to c) t (driven bridge_host cast projector_host router t)
          (drive_bridge_round-Frame bridge_host cast projector_host router t) h)

    cached_forwarded-Sends :
        (c : CachedRoute) (endpoint : LinkEndpoint) (t : Task)
        → c.command.intent ≡ TransportDeliveryIntent.unicast endpoint
        → Holds to c t.route_cache
        → Sends (
            or_activate bridge_host cast projector_host router to payload
              (cached_forwarded bridge_host cast projector_host router to c payload (ok tt, t)))
    unfolding cached_forwarded or_activate
    cached_forwarded-Sends c endpoint t unicast h =
        let queued =
          queue_transport_command bridge_host cast projector_host router c.command.intent payload
            t in
        Ends-bind (Caches (Holds to c)) (λ receipt t'. Remembers to receipt t'.route_cache)
          (Caches IsUnicastCache) queued _
          (lose to c queued
            (Frames-Caches (Holds to c) t queued (queue-Frames c.command.intent payload t) h))
          (λ done t1 h1.
            Ends-bind (Caches (Holds to c)) (λ receipt t'. Remembers to receipt t'.route_cache)
              (Caches IsUnicastCache) (driven bridge_host cast projector_host router t1) _
              (drive_holding c t1 h1)
              (λ progress t2 h2. receipt-Remembers to c t2.route_cache endpoint unicast h2.0 h2.1))

    deliver :
        (c : CachedRoute) (endpoint : LinkEndpoint) (changed : Bool) (t : Task)
        → c.command.intent ≡ TransportDeliveryIntent.unicast endpoint
        → Holds to c t.route_cache
        → Sends (
            (driven bridge_host cast projector_host router
                >> (publish_if bridge_host cast projector_host router changed
                    >> pure (send_receipt to c.route_id c.command)))
              t)
    deliver c endpoint changed t unicast h =
        Ends-bind (Caches (Holds to c)) (λ receipt t'. Remembers to receipt t'.route_cache)
          (Caches IsUnicastCache) (driven bridge_host cast projector_host router t) _
          (drive_holding c t h)
          (λ progress t1 h1.
            let published = publish_if bridge_host cast projector_host router changed t1 in
            Ends-bind (Caches (Holds to c)) (λ receipt t'. Remembers to receipt t'.route_cache)
              (Caches IsUnicastCache) published _
              (lose to c published (
                Frames-Caches (Holds to c) t1 published
                  (publish_if-Frame bridge_host cast projector_host router changed t1) h1))
              (λ done t2 h2. receipt-Remembers to c t2.route_cache endpoint unicast h2.0 h2.1))

    -- What follows the router's `forward_payload` of a new route.
    finish :
        (route : M) (changed : Bool) (t : Task)
        → IsUnicastCache t.route_cache
        → Sends (
            (command_for_route bridge_host cast projector_host router route >>= λ queued.
            queue_transport_command bridge_host cast projector_host router queued.intent payload
            >> (cache bridge_host cast projector_host router to
                  (record { route_id = router.route_id route; command = queued })
                >> (driven bridge_host cast projector_host router
                    >> (publish_if bridge_host cast projector_host router changed
                        >> pure (send_receipt to (router.route_id route) queued)))))
              t)
    finish route changed t u =
        Ends-bind
          (λ q t'.
            ((endpoint : LinkEndpoint) × (q.intent ≡ TransportDeliveryIntent.unicast endpoint))
            × IsUnicastCache t'.route_cache)
          (λ receipt t'. Remembers to receipt t'.route_cache) (Caches IsUnicastCache)
          (command_for_route bridge_host cast projector_host router route t) _
          (command-Caches route t u)
          (λ q t1 ((endpoint, unicast), u1).
            let queued =
              queue_transport_command bridge_host cast projector_host router q.intent payload t1 in
            let c : CachedRoute = record { route_id = router.route_id route; command = q } in
            Ends-bind (Caches IsUnicastCache) (λ receipt t'. Remembers to receipt t'.route_cache)
              (Caches IsUnicastCache) queued _
              (Frames-Caches IsUnicastCache t1 queued (queue-Frames q.intent payload t1) u1)
              (λ done t2 u2.
                deliver c endpoint changed (record t2 { route_cache = insert to c t2.route_cache })
                  unicast
                  (
                    inserted to c t2.route_cache,
                    insert-IsUnicastCache to c endpoint t2.route_cache unicast u2,
                  )))

    activate_and_forward-Sends :
        (t : Task)
        → IsUnicastCache t.route_cache
        → Sends (activate_and_forward bridge_host cast projector_host router to payload t)
    unfolding activate_and_forward activate
    activate_and_forward-Sends t u =
        Ends-bind (Caches IsUnicastCache) (λ receipt t'. Remembers to receipt t'.route_cache)
          (Caches IsUnicastCache) (activate bridge_host cast projector_host router to t) _
          (Frames-Caches IsUnicastCache t _
            (routed-Frames t (router.activate_route (default_objective to) t.bridge.world)) u)
          (λ route t1 u1.
            let (changed, projector) =
              ingest_materialized_route projector_host route t1.projector in
            let t2 : Task = record t1 { projector = projector } in
            Ends-bind (Caches IsUnicastCache) (λ receipt t'. Remembers to receipt t'.route_cache)
              (Caches IsUnicastCache)
              (forward bridge_host cast projector_host router (router.route_id route) payload t2) _
              (Frames-Caches IsUnicastCache t2 _
                (forwarded-Frames t2
                  (router.forward_payload (router.route_id route) payload t2.bridge.world))
                u1)
              (λ done t3 u3. finish route changed t3 u3))

    forward_cached-Sends :
        (o : Option CachedRoute) (t : Task)
        → get to t.route_cache ≡ o
        → IsUnicastCache t.route_cache
        → Sends (
            or_activate bridge_host cast projector_host router to payload
              (forward_cached bridge_host cast projector_host router to payload o t))
    unfolding forward_cached or_activate cached_forwarded
    forward_cached-Sends none t found u = activate_and_forward-Sends t u
    forward_cached-Sends (some c) t found u =
        elim (Bool-cases (router.active_route c.route_id t.bridge.world)) [
          | inr gone ↦ rw (gone, forward_cached) (activate_and_forward-Sends t u)
          | inl live ↦
              rw (live, forward_cached)
                (retried (router.forward_payload c.route_id payload t.bridge.world))
        ]
      where
        retried :
            (r : Option R × W)
            → Sends (
                or_activate bridge_host cast projector_host router to payload (
                  cached_forwarded bridge_host cast projector_host router to c payload
                    (forwarded bridge_host cast projector_host router t r)))
        retried (none, w) =
            let (endpoint, unicast) = u to c found in
            cached_forwarded-Sends c endpoint (record t { bridge = record t.bridge { world = w } })
              unicast (found, u)
        retried (some e, w) =
            activate_and_forward-Sends
              (record t {
                bridge = record t.bridge { world = w };
                route_cache = remove to t.route_cache;
              })
              (remove-IsUnicastCache to t.route_cache u)

    -- A send that succeeds returns a receipt for its destination, delivered by unicast, and leaves in
    -- the route cache exactly the route, next hop and endpoint of the receipt; whether it succeeds or
    -- fails, by a cached route or a new one, every cached command stays a unicast.
    pub handle_send-Remembers :
        (t : Task)
        → IsUnicastCache t.route_cache
        → Ends
            (λ receipt t'. Remembers to receipt t'.route_cache)
            (Caches IsUnicastCache)
            (handle_send bridge_host cast projector_host router to payload t)
    unfolding handle_send try_cached_forward
    handle_send-Remembers t u = forward_cached-Sends (get to t.route_cache) t refl u
