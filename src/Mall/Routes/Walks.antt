-- ===== src/Mall/Routes/Walks.antt =====
-- Walks over the edges of a map, apart from the graph that internal/mall builds of them, and the nodes
-- that a route shows.
use sai_aurosy.Prelude.{
  ◌≡◌, refl, sym, ◌∙◌, inl, inr, Bool, true, false, some, List, [], ◌∷◌, ◌++◌, any, map, String,
  ◌==◌, eq_iff, arith, is_some, Bool-cases,
}
use sai_aurosy.Dict
use sai_aurosy.Dict.{Dict}
use sai_aurosy.Dict.Laws.{get-put}
use sai_aurosy.Mall.{NavNode, MallMap}
use sai_aurosy.Mall.Graph.{Weight, new_graph}
use sai_aurosy.Mall.Graph.Order.{Walk, here, along}
use sai_aurosy.Mall.Graph.Edges.{Link, is_place, at-new_graph, is_some-new_graph}
use sai_aurosy.Mall.Graph.Rows.{Entry-at, at-Entry}
use sai_aurosy.Mall.Routes.{index_nodes, node_or_zero, zero_node, node_by_id}

module _ {W : Type 0} (ops : Weight W) (m : MallMap W) (from_id : String) where
  -- A walk from a place of the map along its edges, with the places that it passes and its length.
  pub data MapWalk : String → List String → W → Type 0 where
    begin : is_place m.nodes m.edges from_id ≡ true → MapWalk from_id (from_id ∷ []) ops.origin
    follow :
        {u v : String} {path : List String} {d w : W}
        → MapWalk u path d
        → Link u v w m.edges
        → is_place m.nodes m.edges v ≡ true
        → MapWalk v (path ++ v ∷ []) (ops.plus d w)

  pub MapWalk-Walk :
      {v : String} {path : List String} {d : W}
      → Walk ops (new_graph m.nodes m.edges) from_id v path d
      → MapWalk v path d
  MapWalk-Walk (here n) = begin (sym (is_some-new_graph m.nodes m.edges from_id) ∙ n)
  MapWalk-Walk (along {u = u} {v = v} {w = w} walk e n) =
      follow (MapWalk-Walk walk)
        ((at-new_graph m.nodes m.edges u v w).0 (at-Entry ops m.nodes m.edges u v w e))
        (sym (is_some-new_graph m.nodes m.edges v) ∙ n)

  pub Walk-MapWalk :
      {v : String} {path : List String} {d : W}
      → MapWalk v path d
      → Walk ops (new_graph m.nodes m.edges) from_id v path d
  Walk-MapWalk (begin n) = here (is_some-new_graph m.nodes m.edges from_id ∙ n)
  Walk-MapWalk (follow {u = u} {v = v} {w = w} walk l n) =
      along (Walk-MapWalk walk)
        (Entry-at ops (new_graph m.nodes m.edges) u v w ((at-new_graph m.nodes m.edges u v w).1 l))
        (is_some-new_graph m.nodes m.edges v ∙ n)

module _ {W : Type 0} where
  abbrev pub is_listed : List (NavNode W) → String → Bool
  is_listed ns id = any (λ (n : NavNode W). n.id == id) ns

  -- The last node of the list with the identifier.
  pub data LastNode (id : String) (n : NavNode W) : List (NavNode W) → Type 0 where
    last : {ns : List (NavNode W)} → n.id ≡ id → is_listed ns id ≡ false → LastNode id n (n ∷ ns)
    later : {k : NavNode W} {ns : List (NavNode W)} → LastNode id n ns → LastNode id n (k ∷ ns)

  index_nodes-absent :
      (ns : List (NavNode W)) (d : Dict (NavNode W)) (id : String)
      → is_listed ns id ≡ false
      → Dict.get (index_nodes ns d) id ≡ Dict.get d id
  unfolding index_nodes
  index_nodes-absent [] d id h = refl
  index_nodes-absent (n ∷ ns) d id h =
      ground (arith, h, get-put d n.id id n, index_nodes-absent ns (Dict.put d n.id n) id)

  index_nodes-LastNode :
      (ns : List (NavNode W)) (d : Dict (NavNode W)) (id : String)
      → is_listed ns id ≡ true
      → (n : NavNode W) × LastNode id n ns × (Dict.get (index_nodes ns d) id ≡ some n)
  unfolding index_nodes
  index_nodes-LastNode [] d id h = absurd (ground (arith, h))
  index_nodes-LastNode (n ∷ ns) d id h = elim (Bool-cases (is_listed ns id)) [
    | inl l ↦
        let (k, last_of, g) = index_nodes-LastNode ns (Dict.put d n.id n) id l in
        (k, later last_of, g)
    | inr l ↦
        let e : (n.id == id) ≡ true = ground (arith, h, l) in
        (
          n,
          last ((eq_iff n.id id).0 e) l,
          index_nodes-absent ns (Dict.put d n.id n) id l ∙ (get-put d n.id id n ∙ simp e refl),
        )
  ]

module _ {W : Type 0} (ops : Weight W) (m : MallMap W) where
  -- The nodes of a route show the places of a path: the last node of that identifier, or the empty node
  -- where an edge has an end that is not listed.
  pub data Shown : List String → List (NavNode W) → Type 0 where
    nothing : Shown [] []
    listed :
        {id : String} {n : NavNode W} {ids : List String} {ns : List (NavNode W)}
        → LastNode id n m.nodes
        → Shown ids ns
        → Shown (id ∷ ids) (n ∷ ns)
    unlisted :
        {id : String} {ids : List String} {ns : List (NavNode W)}
        → is_listed m.nodes id ≡ false
        → Shown ids ns
        → Shown (id ∷ ids) (zero_node ops ∷ ns)

  pub is_some-node_by_id :
      (id : String) → is_some (Dict.get (node_by_id m) id) ≡ is_listed m.nodes id
  unfolding Dict.get
  is_some-node_by_id id = elim (Bool-cases (is_listed m.nodes id)) [
    | inl l ↦ let (n, last_of, g) = index_nodes-LastNode m.nodes [] id l in ground (arith, l, g)
    | inr l ↦ ground (arith, l, index_nodes-absent m.nodes [] id l)
  ]

  pub Shown-map :
      (ids : List String)
      → Shown ids (map (λ id. node_or_zero ops (Dict.get (node_by_id m) id)) ids)
  unfolding node_or_zero Dict.get
  Shown-map [] = nothing
  Shown-map (id ∷ ids) = elim (Bool-cases (is_listed m.nodes id)) [
    | inl l ↦
        let (n, last_of, g) = index_nodes-LastNode m.nodes [] id l in
        simp g (listed last_of (Shown-map ids))
    | inr l ↦ simp (index_nodes-absent m.nodes [] id l) (unlisted l (Shown-map ids))
  ]
