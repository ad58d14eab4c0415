-- ===== src/Auth/Examples.antt =====
-- A server with an HMAC secret and an issuer, and a request of an operator.
use sai_aurosy.Prelude.{◌≡◌, refl, false, none, some, [], ◌∷◌, ◌==◌, if◌then◌else◌}
use sai_aurosy.Auth.{
  Claims, failed, claimed, Setup, Request, get_roles, auth_configured, check_claims, parse_jwt,
  or_oauth, check_token, after_token, with_credentials, authenticate, has_any_role, require_claims,
  require_role,
}
use sai_aurosy.Auth.Guarded.{Vouched, HasRole, require_role-Vouched}

abbrev operator : Claims
operator = record { issuer = "sai"; audience = []; roles = []; role = "operator"; tenant_id = "t1" }

abbrev setup : Setup
setup = record {
  secret = "s3cret";
  public_key = "";
  issuer = "sai";
  audience = "";
  allow_unsafe_no_auth = false;
  parse_with_claims = λ k t. if t == "good" then claimed operator else failed;
  api_keys = none;
  oauth = none;
  cut_bearer = λ a. if a == "Bearer good" then some "good" else none;
  equal_fold = λ a b. a == b;
}

abbrev request : Request
request = record {
  authorization = "Bearer good";
  x_api_key = "";
  method = "POST";
  query_api_key = "";
}

require_role-Vouched_example :
    (c : Claims) × (some operator ≡ some c)
    × Vouched setup request c
    × HasRole setup c ("operator" ∷ "administrator" ∷ [])
unfolding require_role authenticate auth_configured with_credentials after_token check_token
    or_oauth parse_jwt check_claims require_claims has_any_role get_roles
require_role-Vouched_example =
    require_role-Vouched setup ("operator" ∷ "administrator" ∷ []) request (some operator) refl refl
