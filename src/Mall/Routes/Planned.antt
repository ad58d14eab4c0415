-- ===== src/Mall/Routes/Planned.antt =====
-- A planned route follows a shortest walk over the map.
use sai_aurosy.Prelude.{
  ◌≡◌, refl, ap, subst, ◌⊎◌, inl, inr, true, false, Option, none, some, List, [], ◌∷◌, Memᴰ, All,
  String, ◌==◌, arith, Bool-cases,
}
use sai_aurosy.Dict
use sai_aurosy.Dict.{Dict}
use sai_aurosy.Dict.Laws.{get-put}
use sai_aurosy.Mall.{NavNode, NavEdge, MallMap}
use sai_aurosy.Mall.Graph.{
  Weight, Graph, Result, row_or_empty, set_edge, add_edge, add_edges, add_nodes, new_graph,
}
use sai_aurosy.Mall.Graph.Order.{Leq, IsOrdered, IsGraph, uncons}
use sai_aurosy.Mall.Graph.Shortest.{Answers, shortest, no_walk, shortest_path-Answers}
use sai_aurosy.Mall.Routes.Walks.{
  MapWalk, MapWalk-Walk, Walk-MapWalk, is_listed, Shown, is_some-node_by_id, Shown-map,
}
use sai_aurosy.Prelude.{◌&&◌}
use sai_aurosy.Mall.Routes.{Answer, ok, error, no_path, node_by_id, route_of, calculate_route}

mem-put :
    {W : Type 0} (row : Dict W) (k v : String) (d w : W)
    → Memᴰ (v, w) (Dict.put row k d)
    → (w ≡ d) ⊎ Memᴰ (v, w) row
unfolding Dict.put
mem-put [] k v d w m = elim (uncons (v, w) (k, d) [] m) [
  | inl e ↦ inl (ap (λ q. q.1) e)
  | inr n ↦ elim n [ ]
]
mem-put ((j, x) ∷ row) k v d w m = elim (Bool-cases (j == k)) [
  | inl e ↦ elim (uncons (v, w) (k, d) row (simp e at m)) [
    | inl q ↦ inl (ap (λ p. p.1) q)
    | inr n ↦ inr (Memᴰ.tail n)
  ]
  | inr e ↦ elim (uncons (v, w) (j, x) (Dict.put row k d) (simp e at m)) [
    | inl q ↦ inr (Memᴰ.head q)
    | inr n ↦ elim (mem-put row k v d w n) [ inl q ↦ inl q | inr o ↦ inr (Memᴰ.tail o) ]
  ]
]

module _ {W : Type 0} (ops : Weight W) (laws : IsOrdered ops) where
  abbrev IsNamed : String → Type 0
  IsNamed id = (id == "") ≡ false

  put-IsGraph :
      (adj : Graph W) (id : String) (row : Dict W)
      → IsNamed id
      → ((v : String) (w : W) → Memᴰ (v, w) row → Leq ops ops.origin w)
      → IsGraph ops adj
      → IsGraph ops (Dict.put adj id row)
  put-IsGraph adj id row n h g = record {
    named = ground (arith, get-put adj id "" row, n, g.named);
    not_negative = λ u v w (r, e, m). elim (Bool-cases (id == u)) [
      | inl q ↦ h v w (subst (Memᴰ (v, w)) (ground (arith, get-put adj id u row, q, e)) m)
      | inr q ↦ g.not_negative u v w (r, ground (arith, get-put adj id u row, q, e), m)
    ];
  }

  set_edge-IsGraph :
      (adj : Graph W) (id to_id : String) (d : W)
      → IsNamed id
      → Leq ops ops.origin d
      → IsGraph ops adj
      → IsGraph ops (set_edge id to_id d adj)
  unfolding set_edge row_or_empty
  set_edge-IsGraph adj id to_id d n l g =
      put-IsGraph adj id _ n (row-grows (Dict.get adj id) refl) g
    where
      row-grows :
          (o : Option (Dict W))
          → Dict.get adj id ≡ o
          → (v : String) (w : W) → Memᴰ (v, w) (Dict.put (row_or_empty o) to_id d)
          → Leq ops ops.origin w
      row-grows none e v w m = elim (mem-put [] to_id v d w m) [
        | inl q ↦ rw q l
        | inr i ↦ elim i [ ]
      ]
      row-grows (some row) e v w m = elim (mem-put row to_id v d w m) [
        | inl q ↦ rw q l
        | inr i ↦ g.not_negative id v w (row, e, i)
      ]

  -- What a map must satisfy: its names are not empty, and its distances are not negative.
  pub record IsWalkable (e : NavEdge W) : Type 0 where
    pub from_named : IsNamed e.from_id
    pub to_named : IsNamed e.to_id
    pub not_negative : Leq ops ops.origin e.distance

  pub record IsMap (m : MallMap W) : Type 0 where
    pub nodes_named : All (λ (n : NavNode W). IsNamed n.id) m.nodes
    pub edges_walkable : All IsWalkable m.edges

  add_nodes-IsGraph :
      (ns : List (NavNode W)) (adj : Graph W)
      → All (λ (n : NavNode W). IsNamed n.id) ns
      → IsGraph ops adj
      → IsGraph ops (add_nodes ns adj)
  unfolding add_nodes
  add_nodes-IsGraph [] adj h g = g
  add_nodes-IsGraph (n ∷ ns) adj h g =
      add_nodes-IsGraph ns _ h.1 (put-IsGraph adj n.id [] h.0 (λ v w m. elim m [ ]) g)

  add_edge-IsGraph :
      (e : NavEdge W) (adj : Graph W)
      → IsWalkable e
      → IsGraph ops adj
      → IsGraph ops (add_edge e adj)
  unfolding add_edge
  add_edge-IsGraph e adj h g =
      let one = set_edge-IsGraph adj e.from_id e.to_id e.distance h.from_named h.not_negative g in
      elim (Bool-cases e.bidirectional) [
        | inl b ↦
            simp b (set_edge-IsGraph _ e.to_id e.from_id e.distance h.to_named h.not_negative one)
        | inr b ↦ simp b one
      ]

  add_edges-IsGraph :
      (es : List (NavEdge W)) (adj : Graph W)
      → All IsWalkable es
      → IsGraph ops adj
      → IsGraph ops (add_edges es adj)
  unfolding add_edges
  add_edges-IsGraph [] adj h g = g
  add_edges-IsGraph (e ∷ es) adj h g = add_edges-IsGraph es _ h.1 (add_edge-IsGraph e adj h.0 g)

  pub new_graph-IsGraph : (m : MallMap W) → IsMap m → IsGraph ops (new_graph m.nodes m.edges)
  unfolding new_graph Dict.get
  new_graph-IsGraph m h = add_edges-IsGraph m.edges _ h.edges_walkable (
      add_nodes-IsGraph m.nodes [] h.nodes_named
        (record { not_negative = λ u v w (r, e, i). absurd (cc e); named = refl }))

  module _ (m : MallMap W) (valid : IsMap m) (from_id to_id : String) where
    -- A route that shows a shortest walk over the edges of the map between two listed nodes; no route
    -- between them and no walk of finite length; or no route for an identifier that is not listed.
    pub data Planned : Answer (List (NavNode W) × W) → Type 0 where
      follows :
          {path : List String} {nodes : List (NavNode W)} {d : W}
          → is_listed m.nodes from_id ≡ true
          → is_listed m.nodes to_id ≡ true
          → MapWalk ops m from_id to_id path d
          → ((path' : List String) (d' : W) → MapWalk ops m from_id to_id path' d' → Leq ops d d')
          → Shown ops m path nodes
          → Planned (ok (nodes, d))
      no_route :
          ((path : List String) (d : W) → MapWalk ops m from_id to_id path d → ops.is_inf d ≡ true)
          → Planned (error no_path)
      not_listed :
          (is_listed m.nodes from_id && is_listed m.nodes to_id) ≡ false → Planned (error no_path)

    route_of-Planned :
        (r : Result W)
        → is_listed m.nodes from_id ≡ true
        → is_listed m.nodes to_id ≡ true
        → Answers ops (new_graph m.nodes m.edges) from_id laws (new_graph-IsGraph m valid) to_id r
        → Planned (route_of ops (node_by_id m) r)
    unfolding route_of
    route_of-Planned r lf lt (shortest {path = path} {d = d} walk least) =
        follows lf lt (MapWalk-Walk ops m from_id walk)
          (λ p d' w. least p d' (Walk-MapWalk ops m from_id w)) (Shown-map ops m path)
    route_of-Planned r lf lt (no_walk h) = no_route (λ p d w. h p d (Walk-MapWalk ops m from_id w))

    -- On a map with named nodes and edges that are not negative, a route between listed nodes shows a
    -- walk along the edges of the map, both ways where an edge is bidirectional and with the
    -- distance of the last edge between two places, which no other walk undercuts; without a route
    -- there is no walk of finite length, or an identifier is not listed.
    pub calculate_route-Planned : Planned (calculate_route ops (ok m) from_id to_id)
    unfolding calculate_route
    calculate_route-Planned = elim (Bool-cases (is_listed m.nodes from_id)) [
      | inr lf ↦ simp (is_some-node_by_id ops m from_id, lf) (not_listed (simp lf refl))
      | inl lf ↦ elim (Bool-cases (is_listed m.nodes to_id)) [
        | inr lt ↦
            simp (is_some-node_by_id ops m from_id, is_some-node_by_id ops m to_id, lf, lt)
              (not_listed (simp (lf, lt) refl))
        | inl lt ↦
            simp (is_some-node_by_id ops m from_id, is_some-node_by_id ops m to_id, lf, lt)
              (route_of-Planned _ lf lt (
                shortest_path-Answers ops (new_graph m.nodes m.edges) from_id laws
                  (new_graph-IsGraph m valid) to_id))
      ]
    ]
