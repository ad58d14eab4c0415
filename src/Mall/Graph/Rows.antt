-- ===== src/Mall/Graph/Rows.antt =====
-- NewGraph of internal/mall/navigation.go: the rows of the graph have each key once, so that its entries
-- are what a lookup gives.
use sai_aurosy.Prelude.{
  ◌≡◌, sym, ap, subst, ◌∙◌, inl, inr, true, some, List, [], ◌∷◌, Memᴰ, String, ◌==◌, eq_iff,
  eq_refl, arith, is_some, Bool-cases, Option-cases,
}
use sai_aurosy.Dict
use sai_aurosy.Dict.{Dict}
use sai_aurosy.Dict.Laws.{get-put, put-IsUnique}
use sai_aurosy.Mall.{NavNode, NavEdge}
use sai_aurosy.Mall.Graph.{
  Weight, Graph, row_or_empty, set_edge, add_edge, add_edges, add_nodes, new_graph,
}
use sai_aurosy.Mall.Graph.Order.{Entry}
use sai_aurosy.Mall.Graph.Edges.{at}

some_injective : {A : Type 0} (x y : A) → some x ≡ some y → x ≡ y
some_injective x y h = cc

module _ {W : Type 0} where
  get-Memᴰ : (row : Dict W) (v : String) (w : W) → Dict.get row v ≡ some w → Memᴰ (v, w) row
  unfolding Dict.get
  get-Memᴰ [] v w h = absurd (cc h)
  get-Memᴰ ((j, x) ∷ row) v w h = elim (Bool-cases (j == v)) [
    | inl e ↦
        let same = some_injective x w (simp e at h) in
        Memᴰ.head (ap (λ k. (k, w)) (sym ((eq_iff j v).0 e)) ∙ ap (λ y. (j, y)) (sym same))
    | inr e ↦ Memᴰ.tail (get-Memᴰ row v w (simp e at h))
  ]

  Memᴰ-is_some :
      (row : Dict W) (v : String) (w : W) → Memᴰ (v, w) row → is_some (Dict.get row v) ≡ true
  unfolding Dict.get
  Memᴰ-is_some [] v w m = elim m [ ]
  Memᴰ-is_some ((j, x) ∷ row) v w (Memᴰ.head e) =
      let key : v ≡ j = ap (λ p. p.0) e in ground (arith, key, eq_refl j)
  Memᴰ-is_some ((j, x) ∷ row) v w (Memᴰ.tail m) = ground (arith, Memᴰ-is_some row v w m)

  Memᴰ-get :
      (row : Dict W) (v : String) (w : W)
      → Dict.IsUnique row
      → Memᴰ (v, w) row
      → Dict.get row v ≡ some w
  unfolding Dict.get
  Memᴰ-get [] v w u m = elim m [ ]
  Memᴰ-get ((j, x) ∷ row) v w u (Memᴰ.head e) =
      let key : v ≡ j = ap (λ p. p.0) e in
      let same : w ≡ x = ap (λ p. p.1) e in ground (arith, key, same, eq_refl j)
  Memᴰ-get ((j, x) ∷ row) v w u (Memᴰ.tail m) = elim (Bool-cases (j == v)) [
    | inl e ↦
        let key = (eq_iff j v).0 e in absurd (ground (arith, key, u.0, Memᴰ-is_some row v w m))
    | inr e ↦ simp e (Memᴰ-get row v w u.1 m)
  ]

  abbrev UniqueRows : Graph W → Type 0
  UniqueRows adj = (u : String) → Dict.IsUnique (row_or_empty (Dict.get adj u))

  put-UniqueRows :
      (adj : Graph W) (id : String) (row : Dict W)
      → Dict.IsUnique row
      → UniqueRows adj
      → UniqueRows (Dict.put adj id row)
  unfolding row_or_empty
  put-UniqueRows adj id row r h u = elim (Bool-cases (id == u)) [
    | inl e ↦ simp (get-put adj id u row, e) r
    | inr e ↦ simp (get-put adj id u row, e) (h u)
  ]

  set_edge-UniqueRows :
      (a b : String) (d : W) (adj : Graph W) → UniqueRows adj → UniqueRows (set_edge a b d adj)
  unfolding set_edge
  set_edge-UniqueRows a b d adj h =
      put-UniqueRows adj a _ (put-IsUnique (row_or_empty (Dict.get adj a)) b d (h a)) h

  add_edges-UniqueRows :
      (es : List (NavEdge W)) (adj : Graph W) → UniqueRows adj → UniqueRows (add_edges es adj)
  unfolding add_edges add_edge
  add_edges-UniqueRows [] adj h = h
  add_edges-UniqueRows (e ∷ es) adj h =
      let one = set_edge-UniqueRows e.from_id e.to_id e.distance adj h in
      add_edges-UniqueRows es (add_edge e adj) (elim (Bool-cases e.bidirectional) [
        | inl b ↦ simp b (set_edge-UniqueRows e.to_id e.from_id e.distance _ one)
        | inr b ↦ simp b one
      ])

  add_nodes-UniqueRows :
      (ns : List (NavNode W)) (adj : Graph W) → UniqueRows adj → UniqueRows (add_nodes ns adj)
  unfolding add_nodes
  add_nodes-UniqueRows [] adj h = h
  add_nodes-UniqueRows (n ∷ ns) adj h =
      add_nodes-UniqueRows ns (Dict.put adj n.id []) (put-UniqueRows adj n.id [] tt h)

  new_graph-UniqueRows :
      (nodes : List (NavNode W)) (edges : List (NavEdge W)) → UniqueRows (new_graph nodes edges)
  unfolding new_graph Dict.get row_or_empty
  new_graph-UniqueRows nodes edges =
      add_edges-UniqueRows edges _ (add_nodes-UniqueRows nodes [] (λ u. tt))

  pub Entry-at :
      (ops : Weight W) (adj : Graph W) (u v : String) (w : W)
      → at adj u v ≡ some w
      → Entry ops adj u v w
  unfolding at row_or_empty Dict.get
  Entry-at ops adj u v w h = elim (Option-cases (Dict.get adj u)) [
    | inl e ↦ absurd (cc (simp e at h))
    | inr (row, e) ↦ (row, e, get-Memᴰ row v w (simp e at h))
  ]

  pub at-Entry :
      (ops : Weight W) (nodes : List (NavNode W)) (edges : List (NavEdge W)) (u v : String) (w : W)
      → Entry ops (new_graph nodes edges) u v w
      → at (new_graph nodes edges) u v ≡ some w
  unfolding at row_or_empty
  at-Entry ops nodes edges u v w (row, e, m) =
      let unique : Dict.IsUnique row =
        subst (λ o. Dict.IsUnique (row_or_empty o)) e (new_graph-UniqueRows nodes edges u) in
      ap (λ o. Dict.get (row_or_empty o) v) e ∙ Memᴰ-get row v w unique m
