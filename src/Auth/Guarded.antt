-- ===== src/Auth/Guarded.antt =====
-- Who gets past the two middlewares.
use sai_aurosy.Prelude.{
  ◌≡◌, ◌≢◌, refl, sym, ap, subst, ◌∙◌, ◌⊎◌, inl, inr, true, false, not, ◌&&◌, ◌||◌, Option, none,
  some, List, Memᴰ, String, ◌==◌, eq_iff, arith, any, contains, Bool-cases, Option-cases,
}
use sai_aurosy.Dict.Views.{Memᴰ-of-any}
use sai_aurosy.Auth.{
  Claims, Checked, failed, absent, claimed, Setup, Request, Response, missing_authorization,
  invalid_token, invalid_api_key, internal_error, forbidden, served, get_roles, auth_configured,
  check_claims, key_of, parse_jwt, or_oauth, check_token, after_token, after_key, with_api_key,
  api_key_of, with_credentials, authenticate, has_any_role, require_claims, require_role,
}

claimed_injective : (c d : Claims) → claimed c ≡ claimed d → c ≡ d
claimed_injective c d h = cc

served_injective : (o p : Option Claims) → served o ≡ served p → o ≡ p
served_injective o p h = cc

module _ (cfg : Setup) where
  -- The signed token of a request, or what vouches for it.
  pub data Vouched (req : Request) (c : Claims) : Type 0 where
    by_jwt :
        (token : String)
        → cfg.cut_bearer req.authorization ≡ some token
        → (cfg.secret == "") && (cfg.public_key == "") ≡ false
        → cfg.parse_with_claims (key_of cfg) token ≡ claimed c
        → (cfg.issuer ≢ "" → c.issuer ≡ cfg.issuer)
        → (cfg.audience ≢ "" → contains c.audience cfg.audience ≡ true)
        → Vouched req c
    by_oauth :
        (token : String) (validate : String → Checked)
        → cfg.cut_bearer req.authorization ≡ some token
        → cfg.oauth ≡ some validate
        → validate token ≡ claimed c
        → Vouched req c
    by_api_key :
        (validate : String → Checked)
        → cfg.cut_bearer req.authorization ≡ none
        → cfg.api_keys ≡ some validate
        → api_key_of cfg req ≢ ""
        → validate (api_key_of cfg req) ≡ claimed c
        → Vouched req c

  -- One of the user's roles is required, up to letter case.
  abbrev pub HasRole : Claims → List String → Type 0
  HasRole c roles =
      (r ur : String) × Memᴰ r roles × Memᴰ ur (get_roles c) × (cfg.equal_fold ur r ≡ true)

  check_claims-claimed :
      (k : Checked) (c : Claims)
      → check_claims cfg k ≡ claimed c
      → (k ≡ claimed c)
        × (cfg.issuer ≢ "" → c.issuer ≡ cfg.issuer)
        × (cfg.audience ≢ "" → contains c.audience cfg.audience ≡ true)
  unfolding check_claims
  check_claims-claimed failed c h = cc
  check_claims-claimed absent c h = cc
  check_claims-claimed (claimed d) c h =
      elim (Bool-cases (not (cfg.issuer == "") && not (d.issuer == cfg.issuer))) [
        | inl a ↦ absurd (ground (arith, a))
        | inr a ↦
            elim (Bool-cases (not (cfg.audience == "") && not (contains d.audience cfg.audience))) [
              | inl b ↦ absurd (ground (arith, a, b))
              | inr b ↦
                  let e : d ≡ c = claimed_injective d c (simp (a, b) at h) in
                  (
                    ap claimed e,
                    λ n.
                        sym (ap (λ (x : Claims). x.issuer) e)
                        ∙ ground (arith, a, eq_iff cfg.issuer "", eq_iff d.issuer cfg.issuer),
                    λ n.
                        subst (λ (x : Claims). contains x.audience cfg.audience ≡ true) e
                          (given_audience d b n),
                  )
            ]
      ]
    where
      given_audience :
          (d : Claims)
          → not (cfg.audience == "") && not (contains d.audience cfg.audience) ≡ false
          → cfg.audience ≢ ""
          → contains d.audience cfg.audience ≡ true
      given_audience d b n = elim (Bool-cases (contains d.audience cfg.audience)) [
        | inl y ↦ y
        | inr y ↦ absurd (ground (arith, b, y, eq_iff cfg.audience ""))
      ]

  or_oauth-claimed :
      (k : Checked) (o : Option (String → Checked)) (token : String) (c : Claims)
      → or_oauth cfg k o token ≡ claimed c
      → (k ≡ claimed c)
        ⊎ ((validate : String → Checked) × (o ≡ some validate) × (validate token ≡ claimed c))
  unfolding or_oauth
  or_oauth-claimed (claimed d) o token c h = inl h
  or_oauth-claimed failed none token c h = cc
  or_oauth-claimed failed (some v) token c h = inr (v, refl, h)
  or_oauth-claimed absent none token c h = cc
  or_oauth-claimed absent (some v) token c h = inr (v, refl, h)

  after_token-served :
      (k : Checked) (c : Claims) → after_token cfg k ≡ served (some c) → k ≡ claimed c
  unfolding after_token
  after_token-served failed c h = cc
  after_token-served absent c h = cc
  after_token-served (claimed d) c h = cc

  after_key-served : (k : Checked) (c : Claims) → after_key cfg k ≡ served (some c) → k ≡ claimed c
  unfolding after_key
  after_key-served failed c h = cc
  after_key-served absent c h = cc
  after_key-served (claimed d) c h = cc

  check_token-Vouched :
      (req : Request) (token : String) (c : Claims)
      → cfg.cut_bearer req.authorization ≡ some token
      → check_token cfg token ≡ claimed c
      → Vouched req c
  unfolding check_token parse_jwt
  check_token-Vouched req token c cut h = elim (or_oauth-claimed _ cfg.oauth token c h) [
    | inr (validate, o, v) ↦ by_oauth token validate cut o v
    | inl k ↦ elim (Bool-cases (not (cfg.secret == "") || not (cfg.public_key == ""))) [
      | inr n ↦ absurd (ground (arith, n, k))
      | inl y ↦
          let (p, i, a) =
            check_claims-claimed (cfg.parse_with_claims (key_of cfg) token) c (simp y at k) in
          by_jwt token cut (ground (arith, y)) p i a
    ]
  ]

  with_api_key-Vouched :
      (req : Request) (c : Claims) (o : Option (String → Checked))
      → cfg.cut_bearer req.authorization ≡ none
      → cfg.api_keys ≡ o
      → with_api_key cfg o (api_key_of cfg req) ≡ served (some c)
      → Vouched req c
  unfolding with_api_key
  with_api_key-Vouched req c none cut e h = cc
  with_api_key-Vouched req c (some validate) cut e h =
      elim (Bool-cases (api_key_of cfg req == "")) [
        | inl y ↦ absurd (ground (arith, y))
        | inr n ↦
            by_api_key validate cut e (λ q. ground (arith, n, eq_iff (api_key_of cfg req) ""))
              (after_key-served _ c (simp n at h))
      ]

  authenticate-Vouched :
      (req : Request) (c : Claims) → authenticate cfg req ≡ served (some c) → Vouched req c
  unfolding authenticate with_credentials
  authenticate-Vouched req c h = elim (Bool-cases (auth_configured cfg)) [
    | inr n ↦ absurd (ground (arith, n))
    | inl y ↦ elim (Option-cases (cfg.cut_bearer req.authorization)) [
      | inl e ↦ with_api_key-Vouched req c cfg.api_keys e refl (simp (y, e) at h)
      | inr (token, e) ↦
          check_token-Vouched req token c e (after_token-served _ c (simp (y, e) at h))
    ]
  ]

  has_any_role-HasRole :
      (c : Claims) (roles : List String)
      → has_any_role cfg (get_roles c) roles ≡ true
      → HasRole c roles
  unfolding has_any_role
  has_any_role-HasRole c roles h =
      let (r, m, p) = Memᴰ-of-any (λ r. any (λ ur. cfg.equal_fold ur r) (get_roles c)) roles h in
      let (ur, n, q) = Memᴰ-of-any (λ ur. cfg.equal_fold ur r) (get_roles c) p in (r, ur, m, n, q)

  require_claims-served :
      (roles : List String) (p o : Option Claims)
      → cfg.allow_unsafe_no_auth ≡ false
      → require_claims cfg roles p ≡ served o
      → (c : Claims) × (p ≡ some c) × (o ≡ some c) × HasRole c roles
  unfolding require_claims
  require_claims-served roles none o safe h = absurd (ground (arith, safe, h))
  require_claims-served roles (some c) o safe h =
      elim (Bool-cases (has_any_role cfg (get_roles c) roles)) [
        | inr n ↦ absurd (ground (arith, n))
        | inl y ↦ (
          c,
          refl,
          sym (served_injective (some c) o (simp y at h)),
          has_any_role-HasRole c roles y,
        )
      ]

  require_role-served :
      (roles : List String) (r : Response) (o : Option Claims)
      → require_role cfg roles r ≡ served o
      → (p : Option Claims) × (r ≡ served p) × (require_claims cfg roles p ≡ served o)
  unfolding require_role
  require_role-served roles missing_authorization o h = cc
  require_role-served roles invalid_token o h = cc
  require_role-served roles invalid_api_key o h = cc
  require_role-served roles internal_error o h = cc
  require_role-served roles forbidden o h = cc
  require_role-served roles (served p) o h = (p, refl, h)

  -- Where authentication is not switched off, a request reaches a handler that requires roles only
  -- with claims for which a token or a key vouches, and which have one of the roles.
  pub require_role-Vouched :
      (roles : List String) (req : Request) (o : Option Claims)
      → cfg.allow_unsafe_no_auth ≡ false
      → require_role cfg roles (authenticate cfg req) ≡ served o
      → (c : Claims) × (o ≡ some c) × Vouched req c × HasRole c roles
  require_role-Vouched roles req o safe h =
      let (p, a, k) = require_role-served roles (authenticate cfg req) o h in
      let (c, e, q, r) = require_claims-served roles p o safe k in
      (c, q, authenticate-Vouched req c (a ∙ ap served e), r)
