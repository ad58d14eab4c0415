-- ===== src/Mall/Graph/Order.antt =====
-- Distances: the laws that the algorithm relies on, and walks with their lengths.
use sai_aurosy.Prelude.{
  ◌≡◌, refl, sym, subst, ◌⊎◌, inl, inr, true, false, some, List, [], ◌∷◌, ◌++◌, Memᴰ, String,
  is_some, Bool-cases,
}
use sai_aurosy.Dict
use sai_aurosy.Dict.{Dict}
use sai_aurosy.Mall.Graph.{Weight, Graph, Item, pop_min}

pub uncons {ℓ} : {A : Type ℓ} (y x : A) (xs : List A) → Memᴰ y (x ∷ xs) → (y ≡ x) ⊎ Memᴰ y xs
uncons y x xs (Memᴰ.head e) = inl e
uncons y x xs (Memᴰ.tail m) = inr m

module _ {W : Type 0} (ops : Weight W) where
  abbrev pub Leq : W → W → Type 0
  Leq a b = ops.less b a ≡ false

  -- What holds of floats that are not NaN and of a sum with a term that is not negative.
  pub record IsOrdered : Type 0 where
    pub asymmetric : (a b : W) → ops.less a b ≡ true → Leq a b
    pub transitive : (a b c : W) → Leq a b → Leq b c → Leq a c
    pub monotone : (a b w : W) → Leq a b → Leq (ops.plus a w) (ops.plus b w)
    pub grows : (a w : W) → Leq ops.origin w → Leq a (ops.plus a w)
    pub below_is_finite : (a b : W) → ops.less a b ≡ true → ops.is_inf a ≡ false
    pub finite_below : (a b : W) → Leq a b → ops.is_inf b ≡ false → ops.is_inf a ≡ false
    pub inf_on_top : (a b : W) → ops.is_inf b ≡ true → Leq a b
    pub inf_is_infinite : ops.is_inf ops.inf ≡ true
    pub origin_is_finite : ops.is_inf ops.origin ≡ false

  module _ (laws : IsOrdered) where
    pub Leq-refl : (a : W) → Leq a a
    Leq-refl a = elim (Bool-cases (ops.less a a)) [ inl l ↦ laws.asymmetric a a l | inr l ↦ l ]

  module _ (adj : Graph W) where
    -- An entry of a row of the graph.
    abbrev pub Entry : String → String → W → Type 0
    Entry u v w = (row : Dict W) × (Dict.get adj u ≡ some row) × Memᴰ (v, w) row

    abbrev pub IsNode : String → Type 0
    IsNode v = is_some (Dict.get adj v) ≡ true

    pub record IsGraph : Type 0 where
      pub not_negative : (u v : String) (w : W) → Entry u v w → Leq ops.origin w
      pub named : is_some (Dict.get adj "") ≡ false

    -- A walk from a node, with the nodes that it passes and the sum of its edges from left to right.
    pub data Walk (from_id : String) : String → List String → W → Type 0 where
      here : IsNode from_id → Walk from_id from_id (from_id ∷ []) ops.origin
      along :
          {u v : String} {path : List String} {d w : W}
          → Walk from_id u path d
          → Entry u v w
          → IsNode v
          → Walk from_id v (path ++ v ∷ []) (ops.plus d w)

  -- The popped item is the least, and the other items stay.
  pub record Pops (xs : List (Item W)) (x : Item W) (rest : List (Item W)) : Type 0 where
    pub taken : Memᴰ x xs
    pub kept : (y : Item W) → Memᴰ y rest → Memᴰ y xs
    pub split : (y : Item W) → Memᴰ y xs → (y ≡ x) ⊎ Memᴰ y rest
    pub least : (y : Item W) → Memᴰ y xs → Leq x.dist y.dist

  module _ (laws : IsOrdered) where
    Pops-first :
        (x : Item W) (xs : List (Item W))
        → ((y : Item W) → Memᴰ y xs → Leq x.dist y.dist)
        → Pops (x ∷ xs) x xs
    Pops-first x xs h = record {
      taken = Memᴰ.head refl;
      kept = λ y m. Memᴰ.tail m;
      split = λ y m. uncons y x xs m;
      least = λ y m. elim (uncons y x xs m) [
        | inl e ↦ subst (λ (z : Item W). Leq x.dist z.dist) (sym e) (Leq-refl laws x.dist)
        | inr n ↦ h y n
      ];
    }

    Pops-later :
        (x m : Item W) (xs rest : List (Item W))
        → Pops xs m rest
        → Leq m.dist x.dist
        → Pops (x ∷ xs) m (x ∷ rest)
    Pops-later x m xs rest p h = record {
      taken = Memᴰ.tail p.taken;
      kept =
          λ y i. elim (uncons y x rest i) [ inl e ↦ Memᴰ.head e | inr n ↦ Memᴰ.tail (p.kept y n) ];
      split = λ y i. elim (uncons y x xs i) [
        | inl e ↦ inr (Memᴰ.head e)
        | inr n ↦ elim (p.split y n) [ inl e ↦ inl e | inr k ↦ inr (Memᴰ.tail k) ]
      ];
      least = λ y i. elim (uncons y x xs i) [
        | inl e ↦ subst (λ (z : Item W). Leq m.dist z.dist) (sym e) h
        | inr n ↦ p.least y n
      ];
    }

    pub pop_min-Pops :
        (x : Item W) (xs : List (Item W)) → Pops (x ∷ xs) (pop_min ops x xs).0 (pop_min ops x xs).1
    unfolding pop_min
    pop_min-Pops x [] = Pops-first x [] (λ y m. elim m [ ])
    pop_min-Pops x (y ∷ ys) =
        let p = pop_min-Pops y ys in
        elim (Bool-cases (ops.less (pop_min ops y ys).0.dist x.dist)) [
          | inl l ↦ simp l (Pops-later x _ (y ∷ ys) _ p (laws.asymmetric _ _ l))
          | inr l ↦ simp l (Pops-first x (y ∷ ys) (λ z m. laws.transitive _ _ _ l (p.least z m)))
        ]
