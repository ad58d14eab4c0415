-- ===== src/Selected.antt =====
-- What is in a list that a test or a map made of another.
use sai_aurosy.Prelude.{
  ◌≡◌, refl, sym, ap, ◌∙◌, ◌⊎◌, inl, inr, Bool, true, List, [], ◌∷◌, map, Memᴰ, Bool-cases,
}
use sai_aurosy.Prelude.Lists.{select}

module _ {ℓ} {A : Type ℓ} where
  uncons : (t x : A) (ts : List A) → Memᴰ t (x ∷ ts) → (t ≡ x) ⊎ Memᴰ t ts
  uncons t x ts (Memᴰ.head e) = inl e
  uncons t x ts (Memᴰ.tail m) = inr m

  pub of-select :
      (p : A → Bool) (t : A) (ts : List A) → Memᴰ t (select p ts) → Memᴰ t ts × (p t ≡ true)
  unfolding select
  of-select p t [] h = elim h [ ]
  of-select p t (x ∷ ts) h = elim (Bool-cases (p x)) [
    | inl e ↦ elim (uncons t x (select p ts) (rw e at h)) [
      | inl q ↦ (Memᴰ.head q, ap p q ∙ e)
      | inr m ↦ let (m', q) = of-select p t ts m in (Memᴰ.tail m', q)
    ]
    | inr e ↦ let (m, q) = of-select p t ts (rw e at h) in (Memᴰ.tail m, q)
  ]

  pub into-select :
      (p : A → Bool) (t : A) (ts : List A) → Memᴰ t ts → p t ≡ true → Memᴰ t (select p ts)
  unfolding select
  into-select p t [] m q = elim m [ ]
  into-select p t (x ∷ ts) (Memᴰ.head e) q = rw (ap p (sym e) ∙ q) (Memᴰ.head e)
  into-select p t (x ∷ ts) (Memᴰ.tail m) q = elim (Bool-cases (p x)) [
    | inl e ↦ rw e (Memᴰ.tail (into-select p t ts m q))
    | inr e ↦ rw e (into-select p t ts m q)
  ]

module _ {ℓ κ} {A : Type ℓ} {B : Type κ} (f : A → B) where
  pub of-map : (y : B) (xs : List A) → Memᴰ y (map f xs) → (x : A) × Memᴰ x xs × (y ≡ f x)
  of-map y [] h = elim h [ ]
  of-map y (x ∷ xs) (Memᴰ.head e) = (x, Memᴰ.head refl, e)
  of-map y (x ∷ xs) (Memᴰ.tail m) = let (x', m', e) = of-map y xs m in (x', Memᴰ.tail m', e)

  pub into-map : (x : A) (xs : List A) → Memᴰ x xs → Memᴰ (f x) (map f xs)
  into-map x [] h = elim h [ ]
  into-map x (y ∷ xs) (Memᴰ.head e) = Memᴰ.head (ap f e)
  into-map x (y ∷ xs) (Memᴰ.tail m) = Memᴰ.tail (into-map x xs m)
