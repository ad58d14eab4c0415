-- ===== src/Mall/Graph/Start.antt =====
-- The search starts with its invariant.
use sai_aurosy.Prelude.{
  ◌≡◌, refl, sym, ap, subst, inl, inr, false, none, some, [], ◌∷◌, Memᴰ, String, ◌==◌, eq_iff,
  eq_refl, arith, is_some, Bool-cases, if◌then◌else◌,
}
use sai_aurosy.Dict
use sai_aurosy.Dict.{Dict}
use sai_aurosy.Dict.Laws.{get-put}
use sai_aurosy.Mall.Graph.{Weight, Graph, Item, Search, dist_of, value_or_zero, all_infinite, start}
use sai_aurosy.Mall.Graph.Order.{Leq, IsOrdered, Leq-refl, IsNode, IsGraph, uncons}
use sai_aurosy.Mall.Graph.Invariant.{Queued, IsSearch}
use sai_aurosy.Mall.Graph.Turns.{IsTurn}

module _ {W : Type 0} (ops : Weight W) (adj : Graph W) (from_id : String) (laws : IsOrdered ops)
    (graph : IsGraph ops adj) where
  get-all_infinite :
      (g : Graph W) (v : String)
      → Dict.get (all_infinite ops adj g) v
        ≡ (if is_some (Dict.get g v) then some ops.inf else none)
  unfolding all_infinite Dict.get
  get-all_infinite [] v = refl
  get-all_infinite ((id, row) ∷ g) v = ground (arith, get-all_infinite g v)

  module _ (node : IsNode ops adj from_id) where
    abbrev pub s0 : Search W
    s0 = start ops adj from_id

    dist_of-start :
        (v : String)
        → dist_of ops s0 v ≡ (
            if from_id == v
            then ops.origin
            else if is_some (Dict.get adj v)
            then ops.inf
            else ops.origin)
    unfolding start dist_of value_or_zero
    dist_of-start v =
        ground
          (arith, get-put (all_infinite ops adj adj) from_id v ops.origin, get-all_infinite adj v)

    start-finite :
        (v : String) → IsNode ops adj v → ops.is_inf (dist_of ops s0 v) ≡ false → v ≡ from_id
    start-finite v n f = elim (Bool-cases (from_id == v)) [
      | inl e ↦ sym ((eq_iff from_id v).0 e)
      | inr e ↦ absurd (ground (arith, dist_of-start v, e, n, laws.inf_is_infinite))
    ]

    start-at : dist_of ops s0 from_id ≡ ops.origin
    start-at = ground (arith, dist_of-start from_id, eq_refl from_id)

    start-queued :
        (v : String)
        → IsNode ops adj v
        → ops.is_inf (dist_of ops s0 v) ≡ false
        → Memᴰ {A = Item W}
            (record { id = v; dist = dist_of ops s0 v })
            (record { id = from_id; dist = ops.origin } ∷ [])
    start-queued v n f =
        subst
          (λ y.
            Memᴰ {A = Item W} (record { id = y; dist = dist_of ops s0 y })
              (record { id = from_id; dist = ops.origin } ∷ []))
          (sym (start-finite v n f))
          (Memᴰ.head (ap (λ d. record { id = from_id; dist = d }) start-at))

    start-items :
        (i : Item W)
        → Memᴰ {A = Item W} i (record { id = from_id; dist = ops.origin } ∷ [])
        → Queued ops adj from_id s0 i
    start-items i m = elim (uncons i (record { id = from_id; dist = ops.origin }) [] m) [
      | inl e ↦ subst (Queued ops adj from_id s0) (sym e) (record {
        node = node;
        stale = subst (λ d. Leq ops d ops.origin) (sym start-at) (Leq-refl ops laws ops.origin);
        finite = laws.origin_is_finite;
      })
      | inr n ↦ elim n [ ]
    ]

    start-IsSearch : IsSearch ops adj from_id s0
    unfolding start Dict.get
    start-IsSearch = record {
      keys = λ v. ground (
        arith,
        get-put (all_infinite ops adj adj) from_id v ops.origin,
        get-all_infinite adj v,
        eq_iff from_id v,
        node,
      );
      positive = λ v. ground (
        arith,
        dist_of-start v,
        Leq-refl ops laws ops.origin,
        laws.inf_on_top ops.origin ops.inf laws.inf_is_infinite,
      );
      at_start = start-at;
      seen_node = λ v h. cc;
      seen_finite = λ v h. cc;
      linked = λ v p g. absurd (cc g);
      rooted = λ v g n f. start-finite v n f;
      settled = λ u v h. absurd (cc h);
      queued = λ v uv n f. start-queued v n f;
      items = start-items;
      ranked = tt;
    }

    pub start-IsTurn : IsTurn ops adj from_id laws graph s0
    unfolding start
    start-IsTurn = (start-IsSearch, λ u v w h. cc)
