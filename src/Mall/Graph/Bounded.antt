-- ===== src/Mall/Graph/Bounded.antt =====
-- The fuel of the search is enough: each turn uses up an item or the edges of a node.
use sai_aurosy.Prelude.{
  ℕ, zero, suc, ◌+◌, ◌≤◌, ◌<◌, ◌≡◌, ◌≢◌, refl, inl, inr, false, Option, none, List, [], ◌∷◌, String,
  ◌==◌, eq_iff, eq_refl, arith, length, contains, Bool-cases, if◌then◌else◌,
}
use sai_aurosy.Dict
use sai_aurosy.Dict.{Dict}
use sai_aurosy.Mall.Graph.{
  Weight, Graph, Item, Search, row_or_empty, pop_min, improve, relax_edge, relax, visit, explore,
  after_pop, turn, search, start, edge_count,
}

module _ {W : Type 0} (ops : Weight W) where
  pop_min-length : (x : Item W) (xs : List (Item W)) → length (pop_min ops x xs).1 ≡ length xs
  unfolding pop_min
  pop_min-length x [] = refl
  pop_min-length x (y ∷ ys) = ground (arith, pop_min-length y ys)

  relax-queue :
      (u : String) (row : Dict W) (s : Search W)
      → length (relax ops u row s).queue ≤ length row + length s.queue
  unfolding relax relax_edge improve
  relax-queue u [] s = omega arith
  relax-queue u ((v, w) ∷ row) s = ground (arith, relax-queue u row (relax_edge ops u v w s))

  relax-seen : (u : String) (row : Dict W) (s : Search W) → (relax ops u row s).seen ≡ s.seen
  unfolding relax relax_edge improve
  relax-seen u [] s = refl
  relax-seen u ((v, w) ∷ row) s = ground (arith, relax-seen u row (relax_edge ops u v w s))

  -- The entries of the rows of nodes that were not seen.
  unseen_edges : List String → Graph W → ℕ
  unseen_edges seen [] = 0
  unseen_edges seen ((id, row) ∷ rest) =
      (if contains seen id then 0 else length row) + unseen_edges seen rest

  unseen_edges-cons :
      (u : String) (seen : List String) (adj : Graph W)
      → unseen_edges (u ∷ seen) adj ≤ unseen_edges seen adj
  unfolding unseen_edges
  unseen_edges-cons u seen [] = omega arith
  unseen_edges-cons u seen ((id, row) ∷ rest) = ground (arith, unseen_edges-cons u seen rest)

  unseen_edges-visit :
      (u : String) (seen : List String) (adj : Graph W)
      → contains seen u ≡ false
      → length (row_or_empty (Dict.get adj u)) + unseen_edges (u ∷ seen) adj ≤ unseen_edges seen adj
  unfolding unseen_edges Dict.get row_or_empty
  unseen_edges-visit u seen [] h = omega arith
  unseen_edges-visit u seen ((id, row) ∷ rest) h = ground (
    arith,
    eq_iff id u,
    eq_refl u,
    unseen_edges-visit u seen rest h,
    unseen_edges-cons u seen rest,
  )

  module _ (adj : Graph W) where
    measure : Search W → ℕ
    measure s = length s.queue + unseen_edges s.seen adj

    explore-measure : (u : String) (s : Search W) → measure (explore ops adj u s) ≤ measure s
    unfolding measure explore visit
    explore-measure u s = elim (Bool-cases (contains s.seen u)) [
      | inl c ↦ simp c (omega arith)
      | inr c ↦
          let row = row_or_empty (Dict.get adj u) in
          let marked : Search W = record s { seen = u ∷ s.seen } in
          simp (c, relax-seen u row marked)
            (omega (arith, relax-queue u row marked, unseen_edges-visit u s.seen adj c))
    ]

    unseen_edges-none : (g : Graph W) → unseen_edges [] g ≡ edge_count ops adj g
    unfolding unseen_edges edge_count
    unseen_edges-none [] = refl
    unseen_edges-none ((id, row) ∷ rest) = omega (arith, unseen_edges-none rest)

    after_pop-bounded :
        (n : ℕ) (next : Search W → Option (Search W))
        → ((t : Search W) → measure t < n → next t ≢ none)
        → (to_id : String) (u : Item W) (rest : List (Item W)) (s : Search W)
        → length rest + unseen_edges s.seen adj < n
        → after_pop ops adj next to_id (u, rest) s ≢ none
    unfolding after_pop measure
    after_pop-bounded n next go to_id u rest s h =
        let popped : Search W = record s { queue = rest } in
        elim (Bool-cases (u.id == to_id)) [
          | inl e ↦ simp e (λ q. cc q)
          | inr e ↦
              simp e
                (go (explore ops adj u.id popped) (omega (arith, explore-measure u.id popped, h)))
        ]

    turn-bounded :
        (n : ℕ) (next : Search W → Option (Search W))
        → ((t : Search W) → measure t < n → next t ≢ none)
        → (to_id : String) (queue : List (Item W)) (s : Search W)
        → length queue + unseen_edges s.seen adj < suc n
        → turn ops adj next to_id queue s ≢ none
    unfolding turn
    turn-bounded n next go to_id [] s h = λ q. cc q
    turn-bounded n next go to_id (x ∷ xs) s h =
        after_pop-bounded n next go to_id (pop_min ops x xs).0 (pop_min ops x xs).1 s
          (omega (arith, pop_min-length x xs, h))

    search-bounded :
        (n : ℕ) (to_id : String) (s : Search W) → measure s < n → search ops adj n to_id s ≢ none
    unfolding search measure
    search-bounded zero to_id s h = absurd (omega arith)
    search-bounded (suc n) to_id s h =
        turn-bounded n (search ops adj n to_id) (λ t m. search-bounded n to_id t m) to_id s.queue s
          h

    -- With the fuel that `shortest_path` gives, the search ends.
    pub search-ends :
        (from_id to_id : String)
        → search ops adj (suc (suc (edge_count ops adj adj))) to_id (start ops adj from_id) ≢ none
    unfolding start measure
    search-ends from_id to_id =
        search-bounded (suc (suc (edge_count ops adj adj))) to_id (start ops adj from_id)
          (omega (arith, unseen_edges-none adj))
