-- ===== src/Demo/Views/Shown.antt =====
-- What a sanitized topology shows, key by key.
use jq_ble.Prelude.{
  ◌≡◌, refl, ap, ◌∙◌, Bool, true, false, ◌&&◌, ◌||◌, Option, none, some, [], ◌∷◌, Map, get, has,
  retain_entries, get-retain_entries, IsSorted, contains, ◌==◌, if◌then◌else◌, pair_eq, pair_order,
  arith,
}
use jq_ble.Core.Endpoints.{NodeId, RouteId, id_eq, id_order}
use jq_ble.Nodes.Topology.{MeshEdge, ActiveRoute, MeshTopology}
use jq_ble.Demo.Views.{
  is_outgoing, targets, is_visible_node, is_visible_route, visible_node_ids, sanitize_topology,
}

contains-targets :
    {X : Type 0} (m : Map (NodeId × NodeId) (MeshEdge X)) (id n : NodeId)
    → contains (targets (retain_entries (is_outgoing id) m)) n ≡ has (id, n) m
unfolding get contains retain_entries
contains-targets [] id n = refl
contains-targets ((k, edge) ∷ m) id n = ground (arith, contains-targets m id n)

kept :
    {V : Type 0} (p : Bool) (o : Option V)
    → (elim o [ none ↦ none | some v ↦ if p then some v else none ]) ≡ (if p then o else none)
kept true none = refl
kept false none = refl
kept true (some v) = refl
kept false (some v) = refl

module _ {N X G : Type 0} (t : MeshTopology N X G) where
  -- The local node, and the nodes that it has an edge to.
  abbrev pub is_adjacent : NodeId → Bool
  is_adjacent n = (t.local_node_id == n) || has (t.local_node_id, n) t.edges

  visible-is_adjacent : (n : NodeId) → contains (visible_node_ids t) n ≡ is_adjacent n
  unfolding contains visible_node_ids
  visible-is_adjacent n = ground (arith, contains-targets t.edges t.local_node_id n)

  abbrev pub shown_route : Option (ActiveRoute G) → Option (ActiveRoute G)
  shown_route none = none
  shown_route (some r) =
      if is_adjacent r.owner_node_id && is_adjacent r.terminal_node_id then some r else none

  route_shown :
      (id : RouteId) (o : Option (ActiveRoute G))
      → (elim o [
        | none ↦ none
        | some r ↦ if is_visible_route (visible_node_ids t) id r then some r else none
      ])
        ≡ shown_route o
  route_shown id none = refl
  route_shown id (some r) =
      rw (visible-is_adjacent r.owner_node_id, visible-is_adjacent r.terminal_node_id) refl

  -- A sanitized topology shows of each map exactly this: the edges that leave the local node, the nodes
  -- that are the local one or that it has an edge to, and the routes between such nodes.
  pub get-sanitize_topology :
      (k : NodeId × NodeId) (n : NodeId) (id : RouteId)
      → IsSorted t.edges
      → IsSorted t.nodes
      → IsSorted t.active_routes
      → (get k (sanitize_topology t).edges
          ≡ (if k.0 == t.local_node_id then get k t.edges else none))
        × (get n (sanitize_topology t).nodes ≡ (if is_adjacent n then get n t.nodes else none))
        × (get id (sanitize_topology t).active_routes ≡ shown_route (get id t.active_routes))
  unfolding sanitize_topology
  get-sanitize_topology k n id edges nodes routes = (
    get-retain_entries (is_outgoing t.local_node_id) k t.edges edges ∙ kept _ (get k t.edges),
    get-retain_entries (is_visible_node (visible_node_ids t)) n t.nodes nodes
        ∙ kept _ (get n t.nodes)
        ∙ ap (λ (p : Bool). if p then get n t.nodes else none) (visible-is_adjacent n),
    get-retain_entries (is_visible_route (visible_node_ids t)) id t.active_routes routes
        ∙ route_shown id (get id t.active_routes),
  )
