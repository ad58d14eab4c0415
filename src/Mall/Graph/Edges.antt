-- ===== src/Mall/Graph/Edges.antt =====
-- NewGraph of internal/mall/navigation.go: what the graph has of the edges and nodes of a map.
use sai_aurosy.Prelude.{
  ◌≡◌, refl, sym, ap, subst, ◌∙◌, ◌⊎◌, inl, inr, Bool, true, false, ◌&&◌, ◌||◌, Option, none, some,
  List, [], ◌∷◌, All, any, String, ◌==◌, eq_iff, arith, is_some, Bool-cases, if◌then◌else◌,
}
use sai_aurosy.Dict
use sai_aurosy.Dict.{Dict}
use sai_aurosy.Dict.Laws.{get-put}
use sai_aurosy.Mall.{NavNode, NavEdge}
use sai_aurosy.Mall.Graph.{Graph, row_or_empty, set_edge, add_edge, add_edges, add_nodes, new_graph}

module _ {W : Type 0} where
  -- An edge of the map leads from `u` to `v`, the other way too if it is bidirectional.
  abbrev pub leads : NavEdge W → String → String → Bool
  leads e u v =
      e.from_id == u && e.to_id == v || e.bidirectional && (e.to_id == u && e.from_id == v)

  -- The last edge in the list that leads from `u` to `v` has the distance `w`.
  pub data Link (u v : String) (w : W) : List (NavEdge W) → Type 0 where
    last :
        {e : NavEdge W} {es : List (NavEdge W)}
        → leads e u v ≡ true
        → e.distance ≡ w
        → All (λ (f : NavEdge W). leads f u v ≡ false) es
        → Link u v w (e ∷ es)
    later : {e : NavEdge W} {es : List (NavEdge W)} → Link u v w es → Link u v w (e ∷ es)

  -- A place of the map: a listed node, the start of an edge, or the end of a bidirectional one.
  abbrev pub is_place : List (NavNode W) → List (NavEdge W) → String → Bool
  is_place nodes edges v =
      any (λ (n : NavNode W). n.id == v) nodes
      || any (λ (e : NavEdge W). e.from_id == v || e.bidirectional && e.to_id == v) edges

  -- The distance that the graph has from `u` to `v`.
  unfoldable pub at : Graph W → String → String → Option W
  unfolding row_or_empty
  at adj u v = Dict.get (row_or_empty (Dict.get adj u)) v

  at-set_edge :
      (a b : String) (d : W) (adj : Graph W) (u v : String)
      → at (set_edge a b d adj) u v ≡ (if a == u && b == v then some d else at adj u v)
  unfolding at set_edge row_or_empty
  at-set_edge a b d adj u v = elim (Bool-cases (a == u)) [
    | inl e ↦
        let row = row_or_empty (Dict.get adj a) in
        simp (get-put adj a u (Dict.put row b d), e, get-put row b v d)
          (ap (λ x. if b == v then some d else Dict.get (row_or_empty (Dict.get adj x)) v)
            ((eq_iff a u).0 e))
    | inr e ↦ simp (get-put adj a u (Dict.put (row_or_empty (Dict.get adj a)) b d), e) refl
  ]

  at-add_edge :
      (e : NavEdge W) (adj : Graph W) (u v : String)
      → at (add_edge e adj) u v ≡ (if leads e u v then some e.distance else at adj u v)
  unfolding add_edge
  at-add_edge e adj u v =
      let one = set_edge e.from_id e.to_id e.distance adj in
      ground (
        arith,
        at-set_edge e.from_id e.to_id e.distance adj u v,
        at-set_edge e.to_id e.from_id e.distance one u v,
      )

  at-unlinked :
      (es : List (NavEdge W)) (adj : Graph W) (u v : String)
      → All (λ (f : NavEdge W). leads f u v ≡ false) es
      → at (add_edges es adj) u v ≡ at adj u v
  unfolding add_edges
  at-unlinked [] adj u v h = refl
  at-unlinked (e ∷ es) adj u v (x, h) =
      at-unlinked es (add_edge e adj) u v h ∙ (at-add_edge e adj u v ∙ simp x refl)

  at-Link :
      {u v : String} {w : W} {es : List (NavEdge W)} (adj : Graph W)
      → Link u v w es
      → at (add_edges es adj) u v ≡ some w
  unfolding add_edges
  at-Link {u} {v} adj (last {e = e} {es = es} l d h) =
      at-unlinked es (add_edge e adj) u v h ∙ (at-add_edge e adj u v ∙ simp l (ap (λ x. some x) d))
  at-Link adj (later {e = e} k) = at-Link (add_edge e adj) k

  Link-or :
      (u v : String) (es : List (NavEdge W))
      → ((w : W) × Link u v w es) ⊎ All (λ (f : NavEdge W). leads f u v ≡ false) es
  Link-or u v [] = inr tt
  Link-or u v (e ∷ es) = elim (Link-or u v es) [
    | inl (w, k) ↦ inl (w, later k)
    | inr h ↦ elim (Bool-cases (leads e u v)) [
      | inl l ↦ inl (e.distance, last l refl h)
      | inr l ↦ inr (l, h)
    ]
  ]

  some_same : (x y : W) → some x ≡ some y → x ≡ y
  some_same x y h = cc

  Link-at :
      (u v : String) (w : W) (es : List (NavEdge W)) (adj : Graph W)
      → at adj u v ≡ none
      → at (add_edges es adj) u v ≡ some w
      → Link u v w es
  Link-at u v w es adj n h = elim (Link-or u v es) [
    | inl (x, k) ↦ subst (λ z. Link u v z es) (some_same x w (sym (at-Link adj k) ∙ h)) k
    | inr k ↦ absurd (ground (arith, at-unlinked es adj u v k, n, h))
  ]

  at-emptied :
      (id : String) (adj : Graph W) (u v : String)
      → at adj u v ≡ none
      → at (Dict.put adj id []) u v ≡ none
  unfolding at row_or_empty Dict.get
  at-emptied id adj u v h = elim (Bool-cases (id == u)) [
    | inl e ↦ simp (get-put adj id u [], e) refl
    | inr e ↦ simp (get-put adj id u [], e) h
  ]

  at-add_nodes :
      (ns : List (NavNode W)) (adj : Graph W) (u v : String)
      → at adj u v ≡ none
      → at (add_nodes ns adj) u v ≡ none
  unfolding add_nodes
  at-add_nodes [] adj u v h = h
  at-add_nodes (n ∷ ns) adj u v h =
      at-add_nodes ns (Dict.put adj n.id []) u v (at-emptied n.id adj u v h)

  at-empty : (u v : String) → at [] u v ≡ none
  unfolding at row_or_empty Dict.get
  at-empty u v = refl

  -- The graph of a map has the distance of the last edge between two places.
  pub at-new_graph :
      (nodes : List (NavNode W)) (edges : List (NavEdge W)) (u v : String) (w : W)
      → (at (new_graph nodes edges) u v ≡ some w → Link u v w edges)
        × (Link u v w edges → at (new_graph nodes edges) u v ≡ some w)
  unfolding new_graph
  at-new_graph nodes edges u v w = (
    Link-at u v w edges (add_nodes nodes []) (at-add_nodes nodes [] u v (at-empty u v)),
    λ k. at-Link (add_nodes nodes []) k,
  )

  is_some-set_edge :
      (a b : String) (d : W) (adj : Graph W) (v : String)
      → is_some (Dict.get (set_edge a b d adj) v) ≡ (a == v || is_some (Dict.get adj v))
  unfolding set_edge
  is_some-set_edge a b d adj v =
      ground (arith, get-put adj a v (Dict.put (row_or_empty (Dict.get adj a)) b d))

  is_some-add_edges :
      (es : List (NavEdge W)) (adj : Graph W) (v : String)
      → is_some (Dict.get (add_edges es adj) v) ≡ (
          is_some (Dict.get adj v)
          || any (λ (e : NavEdge W). e.from_id == v || e.bidirectional && e.to_id == v) es)
  unfolding add_edges add_edge
  is_some-add_edges [] adj v = ground arith
  is_some-add_edges (e ∷ es) adj v =
      let one = set_edge e.from_id e.to_id e.distance adj in
      ground (
        arith,
        is_some-set_edge e.from_id e.to_id e.distance adj v,
        is_some-set_edge e.to_id e.from_id e.distance one v,
        is_some-add_edges es (add_edge e adj) v,
      )

  is_some-add_nodes :
      (ns : List (NavNode W)) (adj : Graph W) (v : String)
      → is_some (Dict.get (add_nodes ns adj) v)
        ≡ (any (λ (n : NavNode W). n.id == v) ns || is_some (Dict.get adj v))
  unfolding add_nodes
  is_some-add_nodes [] adj v = ground arith
  is_some-add_nodes (n ∷ ns) adj v =
      ground (arith, get-put adj n.id v [], is_some-add_nodes ns (Dict.put adj n.id []) v)

  pub is_some-new_graph :
      (nodes : List (NavNode W)) (edges : List (NavEdge W)) (v : String)
      → is_some (Dict.get (new_graph nodes edges) v) ≡ is_place nodes edges v
  unfolding new_graph Dict.get
  is_some-new_graph nodes edges v =
      ground (arith, is_some-add_edges edges (add_nodes nodes []) v, is_some-add_nodes nodes [] v)
