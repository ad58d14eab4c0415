-- ===== src/Mall/Graph/Better.antt =====
-- A shorter way to a node keeps the invariant of the search.
use sai_aurosy.Prelude.{
  ◌≡◌, refl, sym, ap, subst, ◌∙◌, inl, inr, Bool, true, false, none, some, List, [], ◌∷◌, Memᴰ,
  String, ◌==◌, eq_iff, eq_refl, arith, contains, is_some, Bool-cases, Option-cases, if◌then◌else◌,
}
use sai_aurosy.Dict
use sai_aurosy.Dict.{Dict}
use sai_aurosy.Dict.Laws.{get-put}
use sai_aurosy.Mall.Graph.{Weight, Graph, Item, Search, dist_of, value_or_zero}
use sai_aurosy.Mall.Graph.Order.{Leq, IsOrdered, Leq-refl, Entry, IsNode, IsGraph, uncons}
use sai_aurosy.Mall.Graph.Invariant.{Seen, Unseen, Ranked, Linked, Queued, IsSearch, Later}

clash : (b : Bool) → b ≡ true → b ≡ false → ⊥
clash b p q = cc

some_injective : (a b : String) → some a ≡ some b → a ≡ b
some_injective a b h = cc

put_self : (m : Dict String) (v u : String) → Dict.get (Dict.put m v u) v ≡ some u
put_self m v u = get-put m v v u ∙ simp (eq_refl v) refl

put_other :
    (m : Dict String) (v u x : String)
    → (v == x) ≡ false
    → Dict.get (Dict.put m v u) x ≡ Dict.get m x
put_other m v u x n = get-put m v x u ∙ simp n refl

module _ {W : Type 0} (ops : Weight W) (adj : Graph W) (from_id : String) (laws : IsOrdered ops)
    (graph : IsGraph ops adj) where
  -- The state after a shorter way to v was found.
  abbrev pub bettered : Search W → String → String → W → Search W
  bettered s u v alt = record s {
    dist = Dict.put s.dist v alt;
    prev = Dict.put s.prev v u;
    queue = record { id = v; dist = alt } ∷ s.queue;
  }

  dist_of-bettered :
      (s : Search W) (u v : String) (alt : W) (x : String)
      → dist_of ops (bettered s u v alt) x ≡ (if v == x then alt else dist_of ops s x)
  unfolding dist_of value_or_zero
  dist_of-bettered s u v alt x = ground (arith, get-put s.dist v x alt)

  dist_of-outside :
      (s : Search W) (v : String)
      → is_some (Dict.get s.dist v) ≡ false
      → dist_of ops s v ≡ ops.origin
  unfolding dist_of value_or_zero
  dist_of-outside s v h = elim (Option-cases (Dict.get s.dist v)) [
    | inl e ↦ rw e refl
    | inr (d, e) ↦ absurd (ground (arith, e))
  ]

  Ranked-put :
      (prev : Dict String) (v u : String) (seen : List String)
      → contains seen v ≡ false
      → Ranked ops adj from_id prev seen
      → Ranked ops adj from_id (Dict.put prev v u) seen
  Ranked-put prev v u [] h r = tt
  Ranked-put prev v u (x ∷ seen) h r =
      let n : (v == x) ≡ false = ground (arith, eq_iff v x, eq_iff x v) in
      (rw (put_other prev v u x n) (r.0), Ranked-put prev v u seen (ground arith) r.1)

  module _ (s : Search W) (inv : IsSearch ops adj from_id s) (u v : String) (w : W)
      (su : Seen ops adj from_id s u) (uv : Unseen ops adj from_id s v)
      (entry : Entry ops adj u v w)
      (top : (x : String) → Seen ops adj from_id s x → Leq ops (dist_of ops s x) (dist_of ops s u))
      (shorter : ops.less (ops.plus (dist_of ops s u) w) (dist_of ops s v) ≡ true) where
    abbrev pub alt : W
    alt = ops.plus (dist_of ops s u) w

    abbrev pub next : Search W
    next = bettered s u v alt

    grown : Leq ops (dist_of ops s u) alt
    grown = laws.grows _ w (graph.not_negative u v w entry)

    alt-positive : Leq ops ops.origin alt
    alt-positive = laws.transitive _ _ _ (inv.positive u) grown

    -- A node outside the graph has distance 0, which nothing improves.
    v-IsNode : IsNode ops adj v
    v-IsNode = elim (Bool-cases (is_some (Dict.get adj v))) [
      | inl y ↦ y
      | inr n ↦ absurd (
          clash _
            (subst (λ d. ops.less alt d ≡ true) (dist_of-outside s v (inv.keys v ∙ n)) shorter)
            alt-positive)
    ]

    v-not-start : (v == from_id) ≡ false
    v-not-start = elim (Bool-cases (v == from_id)) [
      | inl y ↦ absurd (
          clash _
            (subst (λ d. ops.less alt d ≡ true)
              (ap (dist_of ops s) ((eq_iff v from_id).0 y) ∙ inv.at_start) shorter)
            alt-positive)
      | inr n ↦ n
    ]

    next-same : (x : String) → (v == x) ≡ false → dist_of ops next x ≡ dist_of ops s x
    next-same x n = dist_of-bettered s u v alt x ∙ simp n refl

    pub next-new : dist_of ops next v ≡ alt
    next-new = dist_of-bettered s u v alt v ∙ simp (eq_refl v) refl

    Seen-differs : (x : String) → Seen ops adj from_id s x → (v == x) ≡ false
    Seen-differs x h = ground (arith, uv, eq_iff v x)

    next-Seen : (x : String) → Seen ops adj from_id s x → dist_of ops next x ≡ dist_of ops s x
    next-Seen x h = next-same x (Seen-differs x h)

    -- To show something of every node, show it of v and of the others.
    by_node :
        (P : String → Type 0) → P v → ((x : String) → (v == x) ≡ false → P x) → (x : String) → P x
    by_node P pv other x = elim (Bool-cases (v == x)) [
      | inl e ↦ subst P ((eq_iff v x).0 e) pv
      | inr n ↦ other x n
    ]

    next-smaller : (x : String) → Leq ops (dist_of ops next x) (dist_of ops s x)
    next-smaller =
        by_node (λ x. Leq ops (dist_of ops next x) (dist_of ops s x))
          (rw next-new (laws.asymmetric _ _ shorter))
          (λ x n. rw (next-same x n) (Leq-refl ops laws (dist_of ops s x)))

    next-Linked :
        (x p : String) → Dict.get (Dict.put s.prev v u) x ≡ some p → Linked ops adj from_id next x p
    next-Linked x p =
        by_node (λ x. Dict.get (Dict.put s.prev v u) x ≡ some p → Linked ops adj from_id next x p)
          (λ h.
            subst (Linked ops adj from_id next v)
              (some_injective u p (sym (put_self s.prev v u) ∙ h))
              (record {
                before = su;
                weight = w;
                entry = entry;
                total = next-new ∙ ap (λ d. ops.plus d w) (sym (next-Seen u su));
              }))
          (λ x n h.
            let old = inv.linked x p (sym (put_other s.prev v u x n) ∙ h) in
            record {
              before = old.before;
              weight = old.weight;
              entry = old.entry;
              total =
                  next-same x n
                  ∙ old.total
                  ∙ ap (λ d. ops.plus d old.weight) (sym (next-Seen p old.before));
            })
          x

    next-rooted :
        (x : String)
        → Dict.get (Dict.put s.prev v u) x ≡ none
        → IsNode ops adj x
        → ops.is_inf (dist_of ops next x) ≡ false
        → x ≡ from_id
    next-rooted =
        by_node
          (λ x.
            Dict.get (Dict.put s.prev v u) x ≡ none
            → IsNode ops adj x
            → ops.is_inf (dist_of ops next x) ≡ false
            → x ≡ from_id)
          (λ h _ _. absurd (cc (sym (put_self s.prev v u) ∙ h)))
          (λ x n h nx fx.
            inv.rooted x (sym (put_other s.prev v u x n) ∙ h) nx
              (subst (λ d. ops.is_inf d ≡ false) (next-same x n) fx))

    next-settled :
        (a b : String)
        → Seen ops adj from_id s a
        → Unseen ops adj from_id s b
        → IsNode ops adj b
        → Leq ops (dist_of ops next a) (dist_of ops next b)
    next-settled a b sa ub nb = rw (next-Seen a sa) (
        by_node
          (λ x.
            Unseen ops adj from_id s x
            → IsNode ops adj x
            → Leq ops (dist_of ops s a) (dist_of ops next x))
          (λ _ _. rw next-new (laws.transitive _ _ _ (top a sa) grown))
          (λ x n ux nx. rw (next-same x n) (inv.settled a x sa ux nx)) b ub nb)

    next-queued :
        (x : String)
        → Unseen ops adj from_id s x
        → IsNode ops adj x
        → ops.is_inf (dist_of ops next x) ≡ false
        → Memᴰ (record { id = x; dist = dist_of ops next x }) next.queue
    next-queued =
        by_node
          (λ x.
            Unseen ops adj from_id s x
            → IsNode ops adj x
            → ops.is_inf (dist_of ops next x) ≡ false
            → Memᴰ (record { id = x; dist = dist_of ops next x }) next.queue)
          (λ _ _ _. Memᴰ.head (ap (λ d. record { id = v; dist = d }) next-new))
          (λ x n ux nx fx. Memᴰ.tail (
            subst (λ d. Memᴰ (record { id = x; dist = d }) s.queue) (sym (next-same x n))
              (inv.queued x ux nx (subst (λ d. ops.is_inf d ≡ false) (next-same x n) fx))))

    next-items : (i : Item W) → Memᴰ i next.queue → Queued ops adj from_id next i
    next-items i m = elim (uncons i (record { id = v; dist = alt }) s.queue m) [
      | inl e ↦ subst (Queued ops adj from_id next) (sym e) (record {
        node = v-IsNode;
        stale = rw next-new (Leq-refl ops laws alt);
        finite = laws.below_is_finite _ _ shorter;
      })
      | inr n ↦
          let old = inv.items i n in
          record {
            node = old.node;
            stale = laws.transitive _ _ _ (next-smaller i.id) old.stale;
            finite = old.finite;
          }
    ]

    pub bettered-IsSearch : IsSearch ops adj from_id next
    bettered-IsSearch = record {
      keys =
          λ x. ground (arith, get-put s.dist v x alt, eq_iff v x, inv.keys x, inv.keys v, v-IsNode);
      positive =
          by_node (λ x. Leq ops ops.origin (dist_of ops next x)) (rw next-new alt-positive)
            (λ x n. rw (next-same x n) (inv.positive x));
      at_start = next-same from_id v-not-start ∙ inv.at_start;
      seen_node = inv.seen_node;
      seen_finite = λ x h. rw (next-Seen x h) (inv.seen_finite x h);
      linked = next-Linked;
      rooted = next-rooted;
      settled = next-settled;
      queued = next-queued;
      items = next-items;
      ranked = Ranked-put s.prev v u s.seen uv inv.ranked;
    }

    pub bettered-Later : Later ops adj from_id s next
    bettered-Later = record { same_seen = refl; smaller = next-smaller; fixed = next-Seen }
