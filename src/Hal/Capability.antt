-- ===== src/Hal/Capability.antt =====
-- What `HasCapability` decides.
use sai_aurosy.Prelude.{
  ◌≡◌, refl, ◌↔◌, true, some, List, [], ◌∷◌, Memᴰ, String, ◌==◌, eq_iff, eq_refl, arith, contains,
}
use sai_aurosy.Dict.Views.{any-of-Memᴰ, Memᴰ-of-any}
use sai_aurosy.Hal.{Robot, has_all, has_capability}

abbrev pub Covers : List String → List String → Type 0
Covers caps required = (c : String) → Memᴰ c required → Memᴰ c caps

pub contains-of-Memᴰ : (xs : List String) (s : String) → Memᴰ s xs → contains xs s ≡ true
contains-of-Memᴰ xs s h = any-of-Memᴰ (λ x. x == s) xs s h (eq_refl s)

pub Memᴰ-of-contains : (xs : List String) (s : String) → contains xs s ≡ true → Memᴰ s xs
Memᴰ-of-contains xs s h =
    let (x, m, p) = Memᴰ-of-any (λ x. x == s) xs h in rw ((eq_iff x s).0 p) at m

Covers-of-has_all : (caps rs : List String) → has_all caps rs ≡ true → Covers caps rs
unfolding has_all
Covers-of-has_all caps [] h c m = elim m [ ]
Covers-of-has_all caps (r ∷ rs) h c (Memᴰ.head e) = rw e (Memᴰ-of-contains caps r (ground arith))
Covers-of-has_all caps (r ∷ rs) h c (Memᴰ.tail m) = Covers-of-has_all caps rs (ground arith) c m

has_all-of-Covers : (caps rs : List String) → Covers caps rs → has_all caps rs ≡ true
unfolding has_all
has_all-of-Covers caps [] h = refl
has_all-of-Covers caps (r ∷ rs) h = ground (
  arith,
  contains-of-Memᴰ caps r (h r (Memᴰ.head refl)),
  has_all-of-Covers caps rs (λ c m. h c (Memᴰ.tail m)),
)

-- A registered robot passes `HasCapability` exactly when each required capability is in its list.
pub has_capability_iff :
    (robot : Robot) (required : List String)
    → (has_capability (some robot) required ≡ true) ↔ Covers robot.capabilities required
unfolding has_capability
has_capability_iff robot [] = (λ _ c m. elim m [ ], λ _. refl)
has_capability_iff robot (r ∷ rs) =
    (Covers-of-has_all robot.capabilities (r ∷ rs), has_all-of-Covers robot.capabilities (r ∷ rs))
