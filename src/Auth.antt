-- ===== src/Auth.antt =====
-- pkg/control-plane/auth: the middleware that authenticates a request (jwt.go) and the one that
-- checks its roles (rbac.go). The JWT library, the API-key store and the OAuth validator are
-- parameters, as are `strings.EqualFold` and the cut of the prefix "Bearer ".
pub mod Guarded
mod Examples
use sai_aurosy.Prelude.{
  Bool, true, false, not, ◌&&◌, ◌||◌, Option, none, some, List, [], ◌∷◌, String, ◌==◌, any,
  contains, is_some, if◌then◌else◌,
}

pub record Claims : Type 0 where
  pub issuer : String
  pub audience : List String
  pub roles : List String
  pub role : String
  pub tenant_id : String

-- The values that the callbacks of `parseJWT` give to the library: a key for RSA, or for HMAC.
pub data Key : Type 0 where
  rsa hmac : String → Key

-- A validator's answer: an error, no claims and no error, or claims.
pub data Checked : Type 0 where
  failed absent : Checked
  claimed : Claims → Checked

pub record Setup : Type 0 where
  pub secret : String
  pub public_key : String
  pub issuer : String
  pub audience : String
  pub allow_unsafe_no_auth : Bool
  pub parse_with_claims : Key → String → Checked
  pub api_keys : Option (String → Checked)
  pub oauth : Option (String → Checked)
  pub cut_bearer : String → Option String
  pub equal_fold : String → String → Bool

pub record Request : Type 0 where
  pub authorization : String
  pub x_api_key : String
  pub method : String
  pub query_api_key : String

pub data Response : Type 0 where
  missing_authorization invalid_token invalid_api_key internal_error forbidden : Response
  served : Option Claims → Response

unfoldable pub get_roles : Claims → List String
get_roles c = elim c.roles [ r ∷ rs ↦ r ∷ rs | [] ↦ if not (c.role == "") then c.role ∷ [] else [] ]

module _ (cfg : Setup) where
  unfoldable pub auth_configured : Bool
  auth_configured =
      not (cfg.secret == "")
      || not (cfg.public_key == "")
      || is_some cfg.api_keys
      || is_some cfg.oauth

  -- The tests of `parseJWT` on the claims of a valid token.
  unfoldable pub check_claims : Checked → Checked
  check_claims failed = failed
  check_claims absent = absent
  check_claims (claimed c) =
      if not (cfg.issuer == "") && not (c.issuer == cfg.issuer)
      then failed
      else if not (cfg.audience == "") && not (contains c.audience cfg.audience)
      then failed
      else claimed c

  abbrev pub key_of : Key
  key_of = if not (cfg.public_key == "") then rsa cfg.public_key else hmac cfg.secret

  unfoldable pub parse_jwt : String → Checked
  unfolding check_claims
  parse_jwt token = check_claims (cfg.parse_with_claims key_of token)

  -- `(err != nil || claims == nil) && oauthValidator != nil`
  unfoldable pub or_oauth : Checked → Option (String → Checked) → String → Checked
  or_oauth (claimed c) oauth token = claimed c
  or_oauth failed none token = failed
  or_oauth failed (some validate) token = validate token
  or_oauth absent none token = absent
  or_oauth absent (some validate) token = validate token

  unfoldable pub check_token : String → Checked
  unfolding parse_jwt or_oauth
  check_token token =
      or_oauth
        (if not (cfg.secret == "") || not (cfg.public_key == "") then parse_jwt token else absent)
        cfg.oauth token

  unfoldable pub after_token : Checked → Response
  after_token (claimed c) = served (some c)
  after_token failed = invalid_token
  after_token absent = invalid_token

  unfoldable pub after_key : Checked → Response
  after_key (claimed c) = served (some c)
  after_key failed = internal_error
  after_key absent = invalid_api_key

  unfoldable pub with_api_key : Option (String → Checked) → String → Response
  unfolding after_key
  with_api_key none key = missing_authorization
  with_api_key (some validate) key =
      if not (key == "") then after_key (validate key) else missing_authorization

  unfoldable pub api_key_of : Request → String
  api_key_of req =
      if req.x_api_key == "" && req.method == "GET" then req.query_api_key else req.x_api_key

  unfoldable pub with_credentials : Option String → Request → Response
  unfolding after_token check_token with_api_key api_key_of
  with_credentials (some token) req = after_token (check_token token)
  with_credentials none req = with_api_key cfg.api_keys (api_key_of req)

  -- `MiddlewareWithAPIKeysAndOAuth`, up to the call of the next handler.
  unfoldable pub authenticate : Request → Response
  unfolding auth_configured with_credentials
  authenticate req =
      if not auth_configured
      then if cfg.allow_unsafe_no_auth then served none else missing_authorization
      else with_credentials (cfg.cut_bearer req.authorization) req

  unfoldable pub has_any_role : List String → List String → Bool
  has_any_role user_roles required = any (λ r. any (λ ur. cfg.equal_fold ur r) user_roles) required

  unfoldable pub require_claims : List String → Option Claims → Response
  unfolding has_any_role get_roles
  require_claims roles none =
      if cfg.allow_unsafe_no_auth then served none else missing_authorization
  require_claims roles (some c) =
      if not (has_any_role (get_roles c) roles) then forbidden else served (some c)

  -- `RequireRole` after the authentication.
  unfoldable pub require_role : List String → Response → Response
  unfolding require_claims
  require_role roles missing_authorization = missing_authorization
  require_role roles invalid_token = invalid_token
  require_role roles invalid_api_key = invalid_api_key
  require_role roles internal_error = internal_error
  require_role roles forbidden = forbidden
  require_role roles (served o) = require_claims roles o
