-- ===== src/Oauth/Examples.antt =====
-- An application that gets a code and exchanges it for a token.
use sai_aurosy.Prelude.{◌≡◌, refl, ap, true, false, List, [], ◌∷◌}
use sai_aurosy.Prelude.Lists.{select}
use sai_aurosy.Hal.{Time}
use sai_aurosy.Oauth.{
  Client, Server, Faults, Strings, issued, AuthorizeRequest, TokenRequest, first, all_allowed,
  contains_scope, or_all, parse_scopes, find_client, find_code, save_code, save_token, after_save,
  authorize_client, handle_authorize,
}
use sai_aurosy.Oauth.Requests.{
  Request, authorize, exchange, code_grant, grant, issue, token_client, handle_token, perform,
  perform_all,
}
use sai_aurosy.Oauth.Scoped.{IsScoped}
use sai_aurosy.Oauth.Kept.{perform_all-IsScoped}
use sai_aurosy.Oauth.SingleUse.{was_issued, handle_token-once}

abbrev plain : Strings
plain = record { hash_sha256 = λ s. s; split_spaces = λ s. s ∷ []; trim_space = λ s. s }

abbrev no_faults : Faults
no_faults = record {
  client_lookup = false;
  code_lookup = false;
  code_create = false;
  code_delete = false;
  token_lookup = false;
  token_create = false;
  token_delete = false;
}

abbrev app : Client
app = record {
  client_id = "app";
  client_secret_hash = "secret";
  redirect_uris = "https://example.org/back" ∷ [];
  scopes = "robots:read" ∷ "tasks:write" ∷ [];
  tenant_id = "mall";
}

abbrev fresh : Server
fresh = record { clients = app ∷ []; codes = []; tokens = []; access_ttl = 7200000 }

fresh-IsScoped : IsScoped fresh
fresh-IsScoped = record { codes_backed = λ c m. elim m [ ]; tokens_backed = λ t m. elim m [ ] }

abbrev ask : AuthorizeRequest
ask = record {
  client_id = "app";
  redirect_uri = "https://example.org/back";
  response_type = "code";
  scope = "robots:read";
  state = "";
}

abbrev redeem : TokenRequest
redeem = record {
  method = "POST";
  grant_type = "authorization_code";
  client_id = "app";
  client_secret = "secret";
  code = "c1";
  redirect_uri = "https://example.org/back";
  refresh_token = "";
}

abbrev asked : Server
asked = perform plain no_faults 1 (authorize ask "c1") fresh

-- The code that was stored is exchanged for a token, once.
exchanged :
    (handle_token plain no_faults 2 redeem "a1" "r1" asked).1
    ≡ issued "a1" "r1" ("robots:read" ∷ [])
unfolding perform handle_authorize authorize_client find_client first parse_scopes or_all
    all_allowed contains_scope save_code after_save select handle_token token_client grant
    code_grant find_code issue save_token
exchanged = refl

abbrev both : List (Faults × Time × Request)
both = (no_faults, 1, authorize ask "c1") ∷ (no_faults, 2, exchange redeem "a1" "r1") ∷ []

perform_all-IsScoped_example : IsScoped (perform_all plain both fresh)
perform_all-IsScoped_example = perform_all-IsScoped plain both fresh fresh-IsScoped

issues : was_issued (handle_token plain no_faults 2 redeem "a1" "r1" asked).1 ≡ true
issues = ap was_issued exchanged

handle_token-once_example :
    was_issued
      (handle_token plain no_faults 3 redeem "a2" "r2"
        (handle_token plain no_faults 2 redeem "a1" "r1" asked).0).1
    ≡ false
handle_token-once_example =
    handle_token-once plain no_faults no_faults 2 3 redeem redeem "a1" "r1" "a2" "r2" asked refl
      refl refl refl issues
