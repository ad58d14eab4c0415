-- ===== src/Mall/Graph/Popped.antt =====
-- The search after the pop of an item: its node was seen before, or is marked as seen.
use sai_aurosy.Prelude.{
  ◌≡◌, ap, subst, ◌⊎◌, inl, inr, true, false, List, ◌∷◌, Memᴰ, String, ◌==◌, eq_iff, eq_refl, arith,
  contains, Bool-cases, Option-cases,
}
use sai_aurosy.Dict
use sai_aurosy.Dict.{Dict}
use sai_aurosy.Mall.Graph.{Weight, Graph, Item, Search, dist_of, row_or_empty}
use sai_aurosy.Mall.Graph.Order.{Leq, IsOrdered, Leq-refl, Entry, IsNode, IsGraph, Pops}
use sai_aurosy.Mall.Graph.Invariant.{Seen, Unseen, Ranked, Queued, IsSearch}
use sai_aurosy.Mall.Graph.Relax.{Farthest}

pub seen_cons :
    (u x : String) (seen : List String)
    → contains (u ∷ seen) x ≡ true
    → (u ≡ x) ⊎ (contains seen x ≡ true)
seen_cons u x seen h = elim (Bool-cases (u == x)) [
  | inl e ↦ inl ((eq_iff u x).0 e)
  | inr n ↦ inr (ground (arith, n))
]

pub unseen_cons :
    (u x : String) (seen : List String)
    → contains (u ∷ seen) x ≡ false
    → ((u == x) ≡ false) × (contains seen x ≡ false)
unseen_cons u x seen h = ground arith

pub seen_later :
    (u x : String) (seen : List String) → contains seen x ≡ true → contains (u ∷ seen) x ≡ true
seen_later u x seen h = ground arith

pub seen_self : (u : String) (seen : List String) → contains (u ∷ seen) u ≡ true
seen_self u seen = ground (arith, eq_refl u)

pub row-Entry :
    (W : Type 0) (ops : Weight W) (adj : Graph W) (u v : String) (w : W)
    → Memᴰ (v, w) (row_or_empty (Dict.get adj u))
    → Entry ops adj u v w
unfolding row_or_empty
row-Entry W ops adj u v w m = elim (Option-cases (Dict.get adj u)) [
  | inl e ↦ elim (rw e at m) [ ]
  | inr (row, e) ↦ (row, e, rw e at m)
]

pub Entry-row :
    (W : Type 0) (ops : Weight W) (adj : Graph W) (u v : String) (w : W)
    → Entry ops adj u v w
    → Memᴰ (v, w) (row_or_empty (Dict.get adj u))
unfolding row_or_empty
Entry-row W ops adj u v w (row, e, m) = rw e m

module _ {W : Type 0} (ops : Weight W) (adj : Graph W) (from_id : String) (laws : IsOrdered ops)
    (graph : IsGraph ops adj) where
  module _ (s : Search W) (inv : IsSearch ops adj from_id s) (x : Item W) (rest : List (Item W))
      (pops : Pops ops s.queue x rest) where
    -- The state after the pop, and the state in which the popped node is marked as seen.
    abbrev pub popped : Search W
    popped = record s { queue = rest }

    abbrev pub marked : Search W
    marked = record s { queue = rest; seen = x.id ∷ s.seen }

    still_queued :
        (v : String)
        → (x.id == v) ≡ false
        → Unseen ops adj from_id s v
        → IsNode ops adj v
        → ops.is_inf (dist_of ops s v) ≡ false
        → Memᴰ (record { id = v; dist = dist_of ops s v }) rest
    still_queued v n uv nv fv = elim (pops.split _ (inv.queued v uv nv fv)) [
      | inl e ↦ absurd (ground (arith, n, eq_iff x.id v, ap (λ (i : Item W). i.id) e))
      | inr m ↦ m
    ]

    pub popped-IsSearch : Seen ops adj from_id s x.id → IsSearch ops adj from_id popped
    unfolding dist_of
    popped-IsSearch h = record {
      keys = inv.keys;
      positive = inv.positive;
      at_start = inv.at_start;
      seen_node = inv.seen_node;
      seen_finite = inv.seen_finite;
      linked = λ v p g.
          let l = inv.linked v p g in
          record { before = l.before; weight = l.weight; entry = l.entry; total = l.total };
      rooted = inv.rooted;
      settled = inv.settled;
      queued = λ v uv nv fv. still_queued v (ground (arith, uv, h, eq_iff x.id v)) uv nv fv;
      items = λ i m.
          let q = inv.items i (pops.kept i m) in
          record { node = q.node; stale = q.stale; finite = q.finite };
      ranked = inv.ranked;
    }

    x-Queued : Queued ops adj from_id s x
    x-Queued = inv.items x pops.taken

    -- The popped node is not farther than any node that was not seen.
    pub nearest :
        (v : String)
        → Unseen ops adj from_id s v
        → IsNode ops adj v
        → Leq ops (dist_of ops s x.id) (dist_of ops s v)
    nearest v uv nv = elim (Bool-cases (ops.is_inf (dist_of ops s v))) [
      | inl i ↦ laws.inf_on_top _ _ i
      | inr f ↦ laws.transitive _ _ _ x-Queued.stale (pops.least _ (inv.queued v uv nv f))
    ]

    marked-Ranked : Ranked ops adj from_id s.prev (x.id ∷ s.seen)
    marked-Ranked = (
      elim (Option-cases (Dict.get s.prev x.id)) [
        | inl e ↦ inl e
        | inr (p, e) ↦ inr (p, e, (inv.linked x.id p e).before)
      ],
      inv.ranked,
    )

    pub marked-IsSearch : IsSearch ops adj from_id marked
    unfolding dist_of
    marked-IsSearch = record {
      keys = inv.keys;
      positive = inv.positive;
      at_start = inv.at_start;
      seen_node = λ v h. elim (seen_cons x.id v s.seen h) [
        | inl e ↦ subst (IsNode ops adj) e x-Queued.node
        | inr o ↦ inv.seen_node v o
      ];
      seen_finite = λ v h. elim (seen_cons x.id v s.seen h) [
        | inl e ↦
            subst (λ y. ops.is_inf (dist_of ops s y) ≡ false) e
              (laws.finite_below _ _ x-Queued.stale x-Queued.finite)
        | inr o ↦ inv.seen_finite v o
      ];
      linked = λ v p g.
          let l = inv.linked v p g in
          record {
            before = seen_later x.id p s.seen l.before;
            weight = l.weight;
            entry = l.entry;
            total = l.total;
          };
      rooted = inv.rooted;
      settled = λ a b h ub nb.
          let (n, o) = unseen_cons x.id b s.seen ub in
          elim (seen_cons x.id a s.seen h) [
            | inl e ↦ subst (λ y. Leq ops (dist_of ops s y) (dist_of ops s b)) e (nearest b o nb)
            | inr sa ↦ inv.settled a b sa o nb
          ];
      queued = λ v uv nv fv. let (n, o) = unseen_cons x.id v s.seen uv in still_queued v n o nv fv;
      items = λ i m.
          let q = inv.items i (pops.kept i m) in
          record { node = q.node; stale = q.stale; finite = q.finite };
      ranked = marked-Ranked;
    }

    pub marked-Farthest :
        Unseen ops adj from_id s x.id → Farthest ops adj from_id laws graph x.id marked
    unfolding dist_of
    marked-Farthest ux v h = elim (seen_cons x.id v s.seen h) [
      | inl e ↦
          subst (λ y. Leq ops (dist_of ops s y) (dist_of ops s x.id)) e
            (Leq-refl ops laws (dist_of ops s x.id))
      | inr o ↦ inv.settled v x.id o ux x-Queued.node
    ]
