-- ===== src/Dict/Laws.antt =====
-- Reads after writes, deletions and filters, and uniqueness of the keys.
use sai_aurosy.Prelude.{
  ◌≡◌, refl, inl, inr, Bool, Option, none, some, [], ◌∷◌, String, ◌==◌, eq_iff, arith,
  if◌then◌else◌, Bool-cases,
}
use sai_aurosy.Dict.{Dict, get, put, remove, delete_where, IsUnique}

-- What a filter keeps of one entry.
abbrev pub unless {ℓ} : {V : Type ℓ} → (V → Bool) → Option V → Option V
unless p none = none
unless p (some v) = if p v then none else some v

module _ {ℓ} {V : Type ℓ} where
  pub get-put :
      (m : Dict V) (k j : String) (v : V) → get (put m k v) j ≡ (if k == j then some v else get m j)
  unfolding get put
  get-put [] k j v = refl
  get-put ((i, w) ∷ m) k j v = ground (arith, eq_iff k j, eq_iff i k, eq_iff i j, get-put m k j v)

  pub get-remove :
      (m : Dict V) (k j : String) → get (remove m k) j ≡ (if k == j then none else get m j)
  unfolding get remove
  get-remove [] k j = ground arith
  get-remove ((i, w) ∷ m) k j = ground (arith, eq_iff k j, eq_iff i k, eq_iff i j, get-remove m k j)

  get-delete_where-none :
      (m : Dict V) (p : V → Bool) (k : String) → get m k ≡ none → get (delete_where p m) k ≡ none
  unfolding get delete_where
  get-delete_where-none [] p k h = refl
  get-delete_where-none ((i, w) ∷ m) p k h = ground (arith, get-delete_where-none m p k)

  pub get-delete_where :
      (m : Dict V) (p : V → Bool) (k : String)
      → IsUnique m
      → get (delete_where p m) k ≡ unless p (get m k)
  unfolding get delete_where
  get-delete_where [] p k u = refl
  get-delete_where ((i, w) ∷ m) p k u =
      ground (arith, eq_iff i k, get-delete_where m p k u.1, get-delete_where-none m p i u.0)

  pub put-IsUnique : (m : Dict V) (k : String) (v : V) → IsUnique m → IsUnique (put m k v)
  unfolding put get
  put-IsUnique [] k v u = (refl, tt)
  put-IsUnique ((i, w) ∷ m) k v u = elim (Bool-cases (i == k)) [
    | inl e ↦ rw e (rw ((eq_iff i k).0 e) at u.0, u.1)
    | inr e ↦
        rw e (
          rw (get-put m k i v) (ground (arith, eq_iff k i, eq_iff i k, u.0)),
          put-IsUnique m k v u.1,
        )
  ]

  pub remove-IsUnique : (m : Dict V) (k : String) → IsUnique m → IsUnique (remove m k)
  unfolding remove get
  remove-IsUnique [] k u = tt
  remove-IsUnique ((i, w) ∷ m) k u = elim (Bool-cases (i == k)) [
    | inl e ↦ rw e (remove-IsUnique m k u.1)
    | inr e ↦ rw e (rw (get-remove m k i) (ground (arith, u.0)), remove-IsUnique m k u.1)
  ]

  pub delete_where-IsUnique : (m : Dict V) (p : V → Bool) → IsUnique m → IsUnique (delete_where p m)
  unfolding delete_where get
  delete_where-IsUnique [] p u = tt
  delete_where-IsUnique ((i, w) ∷ m) p u = elim (Bool-cases (p w)) [
    | inl e ↦ rw e (delete_where-IsUnique m p u.1)
    | inr e ↦ rw e (get-delete_where-none m p i u.0, delete_where-IsUnique m p u.1)
  ]
