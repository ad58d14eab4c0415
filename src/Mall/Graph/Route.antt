-- ===== src/Mall/Graph/Route.antt =====
-- The path that is read off the map `prev` is a walk whose length is the distance.
use mathlib.Core.List.{append_assoc}
use sai_aurosy.Prelude.{
  ℕ, zero, suc, ◌<◌, ◌≡◌, ◌≢◌, refl, sym, ap, subst, ◌∙◌, inl, inr, true, false, none, some, List,
  [], ◌∷◌, ◌++◌, String, ◌==◌, eq_iff, eq_refl, arith, contains, length, Option-cases,
}
use sai_aurosy.Dict
use sai_aurosy.Dict.{Dict}
use sai_aurosy.Mall.Graph.{Weight, Graph, Search, dist_of, trace, name_or_empty}
use sai_aurosy.Mall.Graph.Order.{IsOrdered, IsNode, IsGraph, Walk, here, along}
use sai_aurosy.Mall.Graph.Invariant.{Seen, Ranked, Linked}
use sai_aurosy.Mall.Graph.Popped.{seen_cons}
use sai_aurosy.Mall.Graph.Turns.{IsDone}

module _ {W : Type 0} (ops : Weight W) (adj : Graph W) (from_id : String) (laws : IsOrdered ops)
    (graph : IsGraph ops adj) where
  -- With this fuel the path to v is found, and is a walk.
  abbrev pub Traced : Search W → String → ℕ → Type 0
  Traced s v n =
      (path : List String) × Walk ops adj from_id v path (dist_of ops s v)
      × ((acc : List String) → trace ops adj n s.prev v acc ≡ some (path ++ acc))

  node-named : (v : String) → IsNode ops adj v → (v == "") ≡ false
  node-named v n = ground (arith, graph.named, eq_iff v "")

  Traced-root :
      (s : Search W) (n : ℕ)
      → IsNode ops adj from_id
      → Dict.get s.prev from_id ≡ none
      → dist_of ops s from_id ≡ ops.origin
      → Traced s from_id (suc (suc n))
  unfolding trace name_or_empty
  Traced-root s n node g e = (
    from_id ∷ [],
    subst (Walk ops adj from_id from_id (from_id ∷ [])) (sym e) (here node),
    λ acc. simp (node-named from_id node, g) refl,
  )

  Traced-step :
      (s : Search W) (v p : String) (n : ℕ)
      → IsNode ops adj v
      → Dict.get s.prev v ≡ some p
      → Linked ops adj from_id s v p
      → Traced s p n
      → Traced s v (suc n)
  unfolding trace name_or_empty
  Traced-step s v p n node g l (path, walk, found) = (
    path ++ v ∷ [],
    subst (Walk ops adj from_id v (path ++ v ∷ [])) (sym l.total) (along walk l.entry node),
    λ acc.
        simp (node-named v node, g)
          (found (v ∷ acc) ∙ ap (λ xs. some xs) (sym (append_assoc path (v ∷ []) acc))),
  )

  module _ (to_id : String) (s : Search W) (done : IsDone ops adj from_id laws graph to_id s)
      (node_from : IsNode ops adj from_id) where
    Traced-Seen :
        (xs : List String)
        → Ranked ops adj from_id s.prev xs
        → ((v : String) → contains xs v ≡ true → Seen ops adj from_id s v)
        → (v : String) → contains xs v ≡ true
        → (n : ℕ) → length xs < n
        → Traced s v n
    Traced-Seen [] r sub v h n lt = cc
    Traced-Seen (x ∷ xs) r sub v h zero lt = absurd (omega arith)
    Traced-Seen (x ∷ xs) r sub v h (suc zero) lt = absurd (omega arith)
    Traced-Seen (x ∷ xs) r sub v h (suc (suc n)) lt =
        let weaker : (y : String) → contains xs y ≡ true → Seen ops adj from_id s y =
          λ y k. sub y (ground (arith, k)) in
        let sx : Seen ops adj from_id s x = sub x (ground (arith, eq_refl x)) in
        elim (seen_cons x v xs h) [
          | inr o ↦ Traced-Seen xs r.1 weaker v o (suc (suc n)) (omega arith)
          | inl e ↦
              subst (λ y. Traced s y (suc (suc n))) e
                (elim (r.0) [
                  | inl g ↦
                      let q = done.rooted x g (done.seen_node x sx) (done.seen_finite x sx) in
                      subst (λ y. Traced s y (suc (suc n))) (sym q)
                        (Traced-root s n node_from (subst (λ y. Dict.get s.prev y ≡ none) q g)
                          done.at_start)
                  | inr (p, g, o) ↦
                      Traced-step s x p (suc n) (done.seen_node x sx) g (done.linked x p g)
                        (Traced-Seen xs r.1 weaker p o (suc n) (omega arith))
                ])
        ]

    pub Traced-goal :
        IsNode ops adj to_id
        → from_id ≢ to_id
        → ops.is_inf (dist_of ops s to_id) ≡ false
        → Traced s to_id (suc (suc (length s.seen)))
    Traced-goal node ne fin = elim (Option-cases (Dict.get s.prev to_id)) [
      | inl g ↦ absurd (ne (sym (done.rooted to_id g node fin)))
      | inr (p, g) ↦
          let l = done.linked to_id p g in
          Traced-step s to_id p (suc (length s.seen)) node g l (
            Traced-Seen s.seen done.ranked (λ v h. h) p l.before (suc (length s.seen))
              (omega arith))
    ]
