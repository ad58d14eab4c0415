-- ===== src/Mall/Graph/Shortest.antt =====
-- `ShortestPath` finds a shortest walk, or there is none of finite length.
use mathlib.Core.List.{append-nil}
use sai_aurosy.Prelude.{
  suc, ◌≡◌, ◌≢◌, refl, sym, ap, subst, ◌∙◌, ◌⊎◌, inl, inr, true, Option, none, some, List, [], ◌∷◌,
  String, ◌==◌, eq_iff, arith, contains, is_some, Bool-cases,
}
use sai_aurosy.Dict
use sai_aurosy.Dict.{Dict}
use sai_aurosy.Mall.Graph.{
  Weight, Graph, Search, Result, found, path_not_found, dist_of, start, search, edge_count,
  after_search, with_path, shortest_path,
}
use sai_aurosy.Mall.Graph.Order.{Leq, IsOrdered, Leq-refl, IsNode, IsGraph, Walk, here, along}
use sai_aurosy.Mall.Graph.Invariant.{Seen, Unseen}
use sai_aurosy.Mall.Graph.Start.{start-IsTurn}
use sai_aurosy.Mall.Graph.Bounded.{search-ends}
use sai_aurosy.Mall.Graph.Turns.{IsDone, search-IsDone}
use sai_aurosy.Mall.Graph.Route.{Traced-goal}

module _ {W : Type 0} (ops : Weight W) (adj : Graph W) (from_id : String) (laws : IsOrdered ops)
    (graph : IsGraph ops adj) where
  Walk-node :
      {v : String} {path : List String} {d : W} → Walk ops adj from_id v path d → IsNode ops adj v
  Walk-node (here n) = n
  Walk-node (along walk e n) = n

  Walk-start :
      {v : String} {path : List String} {d : W}
      → Walk ops adj from_id v path d
      → IsNode ops adj from_id
  Walk-start (here n) = n
  Walk-start (along walk e n) = Walk-start walk

  Walk-positive :
      {v : String} {path : List String} {d : W}
      → Walk ops adj from_id v path d
      → Leq ops ops.origin d
  Walk-positive (here n) = Leq-refl ops laws ops.origin
  Walk-positive (along {u = u} {v = v} {w = w} walk e n) =
      laws.transitive _ _ _ (Walk-positive walk) (laws.grows _ w (graph.not_negative u v w e))

  module _ (to_id : String) (s : Search W) (done : IsDone ops adj from_id laws graph to_id s) where
    -- A walk ends at a seen node that is not farther, or passed a node that was not seen.
    frontier :
        {v : String} {path : List String} {d : W}
        → Walk ops adj from_id v path d
        → (Seen ops adj from_id s v × Leq ops (dist_of ops s v) d)
          ⊎ ((x : String) × Unseen ops adj from_id s x
              × IsNode ops adj x
              × Leq ops (dist_of ops s x) d)
    frontier (here n) = elim (Bool-cases (contains s.seen from_id)) [
      | inl h ↦
          inl (
            h,
            subst (λ d. Leq ops d ops.origin) (sym done.at_start) (Leq-refl ops laws ops.origin),
          )
      | inr h ↦ inr (
        from_id,
        h,
        n,
        subst (λ d. Leq ops d ops.origin) (sym done.at_start) (Leq-refl ops laws ops.origin),
      )
    ]
    frontier (along {u = u} {v = v} {w = w} walk e n) = elim (frontier walk) [
      | inr (x, h, nx, l) ↦
          inr (x, h, nx, laws.transitive _ _ _ l (laws.grows _ w (graph.not_negative u v w e)))
      | inl (h, l) ↦
          let lv = laws.transitive _ _ _ (done.closed u v w h e n) (laws.monotone _ _ w l) in
          elim (Bool-cases (contains s.seen v)) [
            | inl hv ↦ inl (hv, lv)
            | inr hv ↦ inr (v, hv, n, lv)
          ]
    ]

    optimal :
        {path : List String} {d : W}
        → Walk ops adj from_id to_id path d
        → Leq ops (dist_of ops s to_id) d
    optimal walk = elim (frontier walk) [
      | inl (h, l) ↦ l
      | inr (x, h, nx, l) ↦ laws.transitive _ _ _ (done.nearest x h nx) l
    ]

  -- What an answer says of the walks from the start to the goal.
  pub data Answers (to_id : String) : Result W → Type 0 where
    shortest :
        {path : List String} {d : W}
        → Walk ops adj from_id to_id path d
        → ((path' : List String) (d' : W) → Walk ops adj from_id to_id path' d' → Leq ops d d')
        → Answers to_id (found path d)
    no_walk :
        ((path : List String) (d : W) → Walk ops adj from_id to_id path d → ops.is_inf d ≡ true)
        → Answers to_id path_not_found

  after_search-Answers :
      (to_id : String) (s : Search W)
      → IsDone ops adj from_id laws graph to_id s
      → IsNode ops adj from_id
      → IsNode ops adj to_id
      → from_id ≢ to_id
      → Answers to_id (after_search ops adj to_id (some s))
  unfolding after_search with_path
  after_search-Answers to_id s done nf nt ne =
      elim (Bool-cases (ops.is_inf (dist_of ops s to_id))) [
        | inl i ↦ simp i (
            no_walk (λ path d walk. elim (Bool-cases (ops.is_inf d)) [
              | inl y ↦ y
              | inr n ↦
                  absurd (ground (arith, i, laws.finite_below _ _ (optimal to_id s done walk) n))
            ]))
        | inr f ↦
            let (path, walk, traced) =
              Traced-goal ops adj from_id laws graph to_id s done nf nt ne f in
            simp (f, traced [] ∙ ap (λ xs. some xs) (append-nil path))
              (shortest walk (λ p d w. optimal to_id s done w))
      ]

  -- With enough fuel the search ends, so that the answer is never `unfinished`.
  searched-Answers :
      (to_id : String) (o : Option (Search W))
      → search ops adj (suc (suc (edge_count ops adj adj))) to_id (start ops adj from_id) ≡ o
      → IsNode ops adj from_id
      → IsNode ops adj to_id
      → from_id ≢ to_id
      → Answers to_id (after_search ops adj to_id o)
  searched-Answers to_id none e nf nt ne = absurd (search-ends ops adj from_id to_id e)
  searched-Answers to_id (some s) e nf nt ne =
      after_search-Answers to_id s
        (search-IsDone ops adj from_id laws graph _ to_id (start ops adj from_id) s
          (start-IsTurn ops adj from_id laws graph nf) e)
        nf nt ne

  pub shortest_path-Answers : (to_id : String) → Answers to_id (shortest_path ops adj from_id to_id)
  unfolding shortest_path
  shortest_path-Answers to_id = elim (Bool-cases (is_some (Dict.get adj from_id))) [
    | inr n ↦ simp n (no_walk (λ p d walk. absurd (ground (arith, n, Walk-start walk))))
    | inl nf ↦ elim (Bool-cases (is_some (Dict.get adj to_id))) [
      | inr n ↦ simp (nf, n) (no_walk (λ p d walk. absurd (ground (arith, n, Walk-node walk))))
      | inl nt ↦ elim (Bool-cases (from_id == to_id)) [
        | inl e ↦
            simp (nf, nt, e)
              (shortest
                (subst (λ v. Walk ops adj from_id v (from_id ∷ []) ops.origin)
                  ((eq_iff from_id to_id).0 e) (here nf))
                (λ p d w. Walk-positive w))
        | inr e ↦
            simp (nf, nt, e)
              (searched-Answers to_id _ refl nf nt (λ q. ground (arith, e, eq_iff from_id to_id)))
      ]
    ]
  ]
