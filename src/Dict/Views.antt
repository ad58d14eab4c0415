-- ===== src/Dict/Views.antt =====
-- The values of a map against its lookups: what a loop over the map can see.
use sai_aurosy.Prelude.{
  ◌≡◌, refl, inl, inr, Bool, true, some, List, [], ◌∷◌, Memᴰ, String, ◌==◌, eq_iff, eq_refl, arith,
  Bool-cases, any,
}
use sai_aurosy.Dict.{Dict, get, values, IsUnique}

-- An entry of the map: a key and the value stored under it.
abbrev pub Stored {ℓ} : {V : Type ℓ} → Dict V → V → Type ℓ
Stored m v = (k : String) × (get m k ≡ some v)

module _ {ℓ} {V : Type ℓ} where
  pub values-of-get : (m : Dict V) (k : String) (v : V) → get m k ≡ some v → Memᴰ v (values m)
  unfolding get values
  values-of-get [] k v h = cc
  values-of-get ((i, w) ∷ m) k v h = elim (Bool-cases (i == k)) [
    | inl e ↦ Memᴰ.head (ground arith)
    | inr e ↦ Memᴰ.tail (values-of-get m k v (ground arith))
  ]

  pub Stored-of-values : (m : Dict V) (v : V) → IsUnique m → Memᴰ v (values m) → Stored m v
  unfolding get values
  Stored-of-values [] v u h = elim h [ ]
  Stored-of-values ((i, w) ∷ m) v u (Memᴰ.head e) = (i, ground (arith, eq_refl i))
  Stored-of-values ((i, w) ∷ m) v u (Memᴰ.tail h) =
      let (k, g) = Stored-of-values m v u.1 h in (k, ground (arith, u.0, eq_iff i k))

module _ {ℓ} {A : Type ℓ} where
  pub any-of-Memᴰ : (p : A → Bool) (xs : List A) (x : A) → Memᴰ x xs → p x ≡ true → any p xs ≡ true
  any-of-Memᴰ p [] x h t = elim h [ ]
  any-of-Memᴰ p (y ∷ ys) x (Memᴰ.head e) t = ground arith
  any-of-Memᴰ p (y ∷ ys) x (Memᴰ.tail h) t = ground (arith, any-of-Memᴰ p ys x h t)

  pub Memᴰ-of-any :
      (p : A → Bool) (xs : List A) → any p xs ≡ true → (x : A) × Memᴰ x xs × (p x ≡ true)
  Memᴰ-of-any p [] h = cc
  Memᴰ-of-any p (y ∷ ys) h = elim (Bool-cases (p y)) [
    | inl t ↦ (y, Memᴰ.head refl, t)
    | inr t ↦ let (x, m, px) = Memᴰ-of-any p ys (ground arith) in (x, Memᴰ.tail m, px)
  ]
