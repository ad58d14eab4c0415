-- ===== src/Mall/Graph/Turns.antt =====
-- The turns of the search keep its invariant, and what the search leaves when it ends.
use sai_aurosy.Prelude.{
  ℕ, zero, suc, ◌≡◌, refl, sym, ap, subst, ◌∙◌, inl, inr, false, Option, none, some, List, [], ◌∷◌,
  Memᴰ, String, ◌==◌, eq_iff, contains, Bool-cases,
}
use sai_aurosy.Dict
use sai_aurosy.Dict.{Dict}
use sai_aurosy.Mall.Graph.{
  Weight, Graph, Item, Search, dist_of, row_or_empty, pop_min, relax, visit, explore, after_pop,
  turn, search,
}
use sai_aurosy.Mall.Graph.Order.{Leq, IsOrdered, Entry, IsNode, IsGraph, Pops, pop_min-Pops}
use sai_aurosy.Mall.Graph.Invariant.{Seen, Unseen, Ranked, Linked, IsSearch, Closed}
use sai_aurosy.Mall.Graph.Relax.{relax-IsSearch}
use sai_aurosy.Mall.Graph.Popped.{
  seen_cons, seen_self, row-Entry, Entry-row, marked, popped-IsSearch, marked-IsSearch,
  marked-Farthest, nearest,
}

some_injective {ℓ} : {A : Type ℓ} (a b : A) → some a ≡ some b → a ≡ b
some_injective a b h = cc

module _ {W : Type 0} (ops : Weight W) (adj : Graph W) (from_id : String) (laws : IsOrdered ops)
    (graph : IsGraph ops adj) where
  abbrev pub IsTurn : Search W → Type 0
  IsTurn s = IsSearch ops adj from_id s × Closed ops adj from_id s (Seen ops adj from_id s)

  module _ (s : Search W) (t : IsTurn s) (x : Item W) (rest : List (Item W))
      (pops : Pops ops s.queue x rest) where
    visit-IsTurn :
        Unseen ops adj from_id s x.id → IsTurn (visit ops adj x.id (record s { queue = rest }))
    unfolding visit dist_of
    visit-IsTurn ux =
        let m : Search W = marked ops adj from_id laws graph s t.0 x rest pops in
        let row = row_or_empty (Dict.get adj x.id) in
        let out : Search W = relax ops x.id row m in
        let (inv, later, closed) =
          relax-IsSearch ops adj from_id laws graph x.id row m
            (λ v w i. row-Entry W ops adj x.id v w i)
            (marked-IsSearch ops adj from_id laws graph s t.0 x rest pops) (seen_self x.id s.seen)
            (marked-Farthest ops adj from_id laws graph s t.0 x rest pops ux) in
        (
          inv,
          λ a b w sa e nb.
              let sm : Seen ops adj from_id m a =
                ap (λ xs. contains xs a) (sym later.same_seen) ∙ sa in
              subst (λ d. Leq ops (dist_of ops out b) (ops.plus d w)) (sym (later.fixed a sm))
                (elim (seen_cons x.id a s.seen sm) [
                  | inl q ↦
                      subst (λ y. Leq ops (dist_of ops out b) (ops.plus (dist_of ops m y) w)) q
                        (closed b w
                          (Entry-row W ops adj x.id b w
                            (subst (λ y. Entry ops adj y b w) (sym q) e))
                          nb)
                  | inr o ↦ laws.transitive _ _ _ (later.smaller b) (t.1 a b w o e nb)
                ]),
        )

    explore-IsTurn : IsTurn (explore ops adj x.id (record s { queue = rest }))
    unfolding explore dist_of
    explore-IsTurn = elim (Bool-cases (contains s.seen x.id)) [
      | inl h ↦ simp h (popped-IsSearch ops adj from_id laws graph s t.0 x rest pops h, t.1)
      | inr h ↦ simp h (visit-IsTurn h)
    ]

  -- What the search leaves: the invariant of its maps, and that no node that was not seen, and has
  -- a finite distance, is nearer than the goal.
  pub record IsDone (to_id : String) (s : Search W) : Type 0 where
    pub at_start : dist_of ops s from_id ≡ ops.origin
    pub seen_node : (v : String) → Seen ops adj from_id s v → IsNode ops adj v
    pub seen_finite : (v : String) → Seen ops adj from_id s v → ops.is_inf (dist_of ops s v) ≡ false
    pub linked : (v p : String) → Dict.get s.prev v ≡ some p → Linked ops adj from_id s v p
    pub rooted :
        (v : String)
        → Dict.get s.prev v ≡ none
        → IsNode ops adj v
        → ops.is_inf (dist_of ops s v) ≡ false
        → v ≡ from_id
    pub ranked : Ranked ops adj from_id s.prev s.seen
    pub closed : Closed ops adj from_id s (Seen ops adj from_id s)
    pub nearest :
        (v : String)
        → Unseen ops adj from_id s v
        → IsNode ops adj v
        → Leq ops (dist_of ops s to_id) (dist_of ops s v)

  empty-IsDone : (to_id : String) (s : Search W) → IsTurn s → s.queue ≡ [] → IsDone to_id s
  empty-IsDone to_id s (inv, closed) e = record {
    at_start = inv.at_start;
    seen_node = inv.seen_node;
    seen_finite = inv.seen_finite;
    linked = inv.linked;
    rooted = inv.rooted;
    ranked = inv.ranked;
    closed = closed;
    nearest = λ v uv nv. elim (Bool-cases (ops.is_inf (dist_of ops s v))) [
      | inl i ↦ laws.inf_on_top _ _ i
      | inr f ↦ elim (subst (Memᴰ _) e (inv.queued v uv nv f)) [ ]
    ];
  }

  goal-IsDone :
      (s : Search W) (x : Item W) (rest : List (Item W))
      → IsTurn s
      → Pops ops s.queue x rest
      → IsDone x.id (record s { queue = rest })
  unfolding dist_of
  goal-IsDone s x rest (inv, closed) pops = record {
    at_start = inv.at_start;
    seen_node = inv.seen_node;
    seen_finite = inv.seen_finite;
    linked = λ v p g.
        let l = inv.linked v p g in
        record { before = l.before; weight = l.weight; entry = l.entry; total = l.total };
    rooted = inv.rooted;
    ranked = inv.ranked;
    closed = closed;
    nearest = nearest ops adj from_id laws graph s inv x rest pops;
  }

  module _ (next : Search W → Option (Search W)) (to_id : String) where
    turn-IsDone :
        ((s t : Search W) → IsTurn s → next s ≡ some t → IsDone to_id t)
        → (queue : List (Item W)) (s t : Search W) → s.queue ≡ queue
        → IsTurn s
        → turn ops adj next to_id queue s ≡ some t
        → IsDone to_id t
    unfolding turn after_pop
    turn-IsDone go [] s t q i h =
        subst (IsDone to_id) (some_injective s t h) (empty-IsDone to_id s i q)
    turn-IsDone go (x ∷ xs) s t q i h =
        let m : Item W = (pop_min ops x xs).0 in
        let rest : List (Item W) = (pop_min ops x xs).1 in
        let pops : Pops ops s.queue m rest =
          subst (λ y. Pops ops y m rest) (sym q) (pop_min-Pops ops laws x xs) in
        elim (Bool-cases (m.id == to_id)) [
          | inl e ↦
              subst (λ y. IsDone y t) ((eq_iff m.id to_id).0 e)
                (subst (IsDone m.id) (some_injective _ t (simp e at h))
                  (goal-IsDone s m rest i pops))
          | inr e ↦
              go (explore ops adj m.id (record s { queue = rest })) t
                (explore-IsTurn s i m rest pops) (simp e at h)
        ]

  pub search-IsDone :
      (n : ℕ) (to_id : String) (s t : Search W)
      → IsTurn s
      → search ops adj n to_id s ≡ some t
      → IsDone to_id t
  unfolding search
  search-IsDone zero to_id s t i h = cc
  search-IsDone (suc n) to_id s t i h =
      turn-IsDone (search ops adj n to_id) to_id (λ a b. search-IsDone n to_id a b) s.queue s t refl
        i h
