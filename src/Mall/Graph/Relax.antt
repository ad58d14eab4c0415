-- ===== src/Mall/Graph/Relax.antt =====
-- Looking at one edge keeps the invariant, and so does the loop over the edges of a node.
use sai_aurosy.Prelude.{
  ◌≡◌, refl, sym, ap, subst, ◌∙◌, inl, inr, [], ◌∷◌, Memᴰ, String, contains, Bool-cases,
}
use sai_aurosy.Dict.{Dict}
use sai_aurosy.Mall.Graph.{Weight, Graph, Search, dist_of, improve, relax_edge, relax}
use sai_aurosy.Mall.Graph.Order.{Leq, IsOrdered, Leq-refl, Entry, IsNode, IsGraph, uncons}
use sai_aurosy.Mall.Graph.Better.{bettered-IsSearch, bettered-Later, next-new}
use sai_aurosy.Mall.Graph.Invariant.{Seen, IsSearch, Later}

module _ {W : Type 0} (ops : Weight W) (adj : Graph W) (from_id : String) (laws : IsOrdered ops)
    (graph : IsGraph ops adj) where
  -- No seen node is farther than u.
  abbrev pub Farthest : String → Search W → Type 0
  Farthest u s =
      (x : String) → Seen ops adj from_id s x → Leq ops (dist_of ops s x) (dist_of ops s u)

  pub Later-refl : (s : Search W) → Later ops adj from_id s s
  Later-refl s = record {
    same_seen = refl;
    smaller = λ v. Leq-refl ops laws (dist_of ops s v);
    fixed = λ v h. refl;
  }

  pub Later-trans :
      (r s t : Search W)
      → Later ops adj from_id r s
      → Later ops adj from_id s t
      → Later ops adj from_id r t
  Later-trans r s t a b = record {
    same_seen = b.same_seen ∙ a.same_seen;
    smaller = λ v. laws.transitive _ _ _ (b.smaller v) (a.smaller v);
    fixed = λ v h. b.fixed v (ap (λ xs. contains xs v) a.same_seen ∙ h) ∙ a.fixed v h;
  }

  Farthest-Later :
      (u : String) (s t : Search W)
      → Seen ops adj from_id s u
      → Later ops adj from_id s t
      → Farthest u s
      → Farthest u t
  Farthest-Later u s t su l f x h =
      let sx : Seen ops adj from_id s x = sym (ap (λ xs. contains xs x) l.same_seen) ∙ h in
      rw (l.fixed x sx, l.fixed u su) (f x sx)

  relax_edge-Relaxed :
      (u v : String) (w : W) (s : Search W)
      → IsSearch ops adj from_id s
      → Seen ops adj from_id s u
      → Farthest u s
      → Entry ops adj u v w
      → IsSearch ops adj from_id (relax_edge ops u v w s)
        × Later ops adj from_id s (relax_edge ops u v w s)
        × (IsNode ops adj v
            → Leq ops (dist_of ops (relax_edge ops u v w s) v) (ops.plus (dist_of ops s u) w))
  unfolding relax_edge improve
  relax_edge-Relaxed u v w s inv su top e = elim (Bool-cases (contains s.seen v)) [
    | inl sv ↦ simp sv (
      inv,
      Later-refl s,
      λ n. laws.transitive _ _ _ (top v sv) (laws.grows _ w (graph.not_negative u v w e)),
    )
    | inr uv ↦ elim (Bool-cases (ops.less (ops.plus (dist_of ops s u) w) (dist_of ops s v))) [
      | inl l ↦
          simp (uv, l)
            (
              bettered-IsSearch ops adj from_id laws graph s inv u v w su uv e top l,
              bettered-Later ops adj from_id laws graph s inv u v w su uv e top l,
              λ n.
                  rw (next-new ops adj from_id laws graph s inv u v w su uv e top l)
                    (Leq-refl ops laws _),
            )
      | inr l ↦ simp (uv, l) (inv, Later-refl s, λ n. refl)
    ]
  ]

  -- The loop over the edges of u.
  pub relax-IsSearch :
      (u : String) (row : Dict W) (s : Search W)
      → ((v : String) (w : W) → Memᴰ (v, w) row → Entry ops adj u v w)
      → IsSearch ops adj from_id s
      → Seen ops adj from_id s u
      → Farthest u s
      → IsSearch ops adj from_id (relax ops u row s)
        × Later ops adj from_id s (relax ops u row s)
        × ((v : String) (w : W)
            → Memᴰ (v, w) row
            → IsNode ops adj v
            → Leq ops (dist_of ops (relax ops u row s) v) (ops.plus (dist_of ops s u) w))
  unfolding relax
  relax-IsSearch u [] s es inv su top = (inv, Later-refl s, λ v w m n. elim m [ ])
  relax-IsSearch u ((v, w) ∷ row) s es inv su top =
      let (inv1, l1, c1) = relax_edge-Relaxed u v w s inv su top (es v w (Memᴰ.head refl)) in
      let mid : Search W = relax_edge ops u v w s in
      let su1 : Seen ops adj from_id mid u = ap (λ xs. contains xs u) l1.same_seen ∙ su in
      let (inv2, l2, c2) =
        relax-IsSearch u row mid (λ x y m. es x y (Memᴰ.tail m)) inv1 su1
          (Farthest-Later u s mid su l1 top) in
      let out : Search W = relax ops u row mid in
      (
        inv2,
        Later-trans s mid out l1 l2,
        λ x y m n. elim (uncons (x, y) (v, w) row m) [
          | inl e ↦
              let ex : x ≡ v = ap (λ q. q.0) e in
              let ey : y ≡ w = ap (λ q. q.1) e in
              laws.transitive _ _ _ (l2.smaller x) (rw (ex, ey) (c1 (subst (IsNode ops adj) ex n)))
          | inr i ↦
              subst (λ d. Leq ops (dist_of ops out x) (ops.plus d y)) (l1.fixed u su) (c2 x y i n)
        ],
      )
