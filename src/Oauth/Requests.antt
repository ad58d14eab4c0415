-- ===== src/Oauth/Requests.antt =====
-- pkg/control-plane/oauth/server.go: HandleToken, HandleRevoke and ValidateAccessToken, and the requests
-- of a client in a sequence.
use sai_aurosy.Prelude.{
  ◌+◌, not, ◌||◌, Option, none, some, List, [], ◌∷◌, String, ◌==◌, ltb, if◌then◌else◌,
}
use sai_aurosy.Hal.{Time}
use sai_aurosy.Oauth.{
  Client, AuthCode, Token, Server, Faults, Strings, Reply, oauth_error, issued, revoked,
  AuthorizeRequest, TokenRequest, find_client, find_code, find_by_access, find_by_refresh,
  delete_code, save_token, delete_token, after_save, handle_authorize,
}

-- What the switch on the grant type leaves: an error, or the tenant and the scopes of the grant.
pub data Grant : Type 0 where
  refused : Reply → Grant
  granted : String → List String → Grant

module _ (strings : Strings) (f : Faults) (now : Time) where
  unfoldable pub code_grant : TokenRequest → Option AuthCode → Server → Server × Grant
  code_grant r none s = (s, refused (oauth_error "invalid_grant" 400))
  code_grant r (some c) s =
      if not (c.client_id == r.client_id) || not (c.redirect_uri == r.redirect_uri)
      then (s, refused (oauth_error "invalid_grant" 400))
      else (
        delete_code strings f now (strings.hash_sha256 r.code) s,
        if ltb c.expires_at now
            then refused (oauth_error "invalid_grant" 400)
            else granted c.tenant_id c.scopes,
      )

  unfoldable pub refresh_grant : TokenRequest → Option Token → Grant
  refresh_grant r none = refused (oauth_error "invalid_grant" 400)
  refresh_grant r (some t) =
      if t.client_id == r.client_id
      then granted t.tenant_id t.scopes
      else refused (oauth_error "invalid_grant" 400)

  unfoldable pub grant : TokenRequest → Server → Server × Grant
  grant r s =
      if r.grant_type == "authorization_code"
      then (if r.code == "" || r.redirect_uri == ""
          then (s, refused (oauth_error "invalid_request" 400))
          else code_grant r (find_code strings f now (strings.hash_sha256 r.code) s) s)
      else if r.grant_type == "refresh_token"
      then (if r.refresh_token == "" then (s, refused (oauth_error "invalid_request" 400)) else (
        s,
        refresh_grant r (find_by_refresh strings f now (strings.hash_sha256 r.refresh_token) s),
      ))
      else (s, refused (oauth_error "unsupported_grant_type" 400))

  -- The rest of HandleToken; `access` and `refresh` are the random tokens.
  unfoldable pub issue : TokenRequest → String → String → Server × Grant → Server × Reply
  issue r access refresh (s, refused reply) = (s, reply)
  issue r access refresh (s, granted tenant_id scopes) =
      after_save strings f now (issued access refresh scopes)
        (save_token strings f now
          (record {
            access_token_hash = strings.hash_sha256 access;
            refresh_token_hash = strings.hash_sha256 refresh;
            client_id = r.client_id;
            tenant_id = tenant_id;
            scopes = scopes;
            expires_at = now + s.access_ttl;
          })
          s)
        s

  unfoldable pub token_client :
      TokenRequest → String → String → Option Client → Server → Server × Reply
  token_client r access refresh none s = (s, oauth_error "invalid_client" 401)
  token_client r access refresh (some c) s =
      let answer = issue r access refresh (grant r s) in
      if strings.hash_sha256 r.client_secret == c.client_secret_hash
      then answer
      else (s, oauth_error "invalid_client" 401)

  unfoldable pub handle_token : TokenRequest → String → String → Server → Server × Reply
  unfolding token_client
  handle_token r access refresh s =
      if not (r.method == "POST")
      then (s, oauth_error "invalid_request" 405)
      else if r.client_id == "" || r.client_secret == ""
      then (s, oauth_error "invalid_client" 401)
      else token_client r access refresh (find_client strings f now r.client_id s) s

  unfoldable pub revoke_found : Option Token → Server → Server
  revoke_found none s = s
  revoke_found (some t) s = delete_token strings f now t.access_token_hash s

  -- HandleRevoke
  unfoldable pub handle_revoke : String → String → String → Server → Server × Reply
  unfolding revoke_found
  handle_revoke method token token_type_hint s =
      if not (method == "POST")
      then (s, oauth_error "Method Not Allowed" 405)
      else if token == ""
      then (s, revoked)
      else if token_type_hint == "refresh_token"
      then (revoke_found (find_by_refresh strings f now (strings.hash_sha256 token) s) s, revoked)
      else (delete_token strings f now (strings.hash_sha256 token) s, revoked)

  unfoldable pub live_token : String → Option Token → Server → Server × Option Token
  live_token hash none s = (s, none)
  live_token hash (some t) s =
      if ltb t.expires_at now then (delete_token strings f now hash s, none) else (s, some t)

  -- ValidateAccessToken; the claims are those of the token in the answer.
  unfoldable pub validate_access_token : String → Server → Server × Option Token
  unfolding live_token
  validate_access_token access s =
      if access == ""
      then (s, none)
      else live_token (strings.hash_sha256 access)
          (find_by_access strings f now (strings.hash_sha256 access) s) s

-- One request, with the random tokens that it draws.
pub data Request : Type 0 where
  authorize : AuthorizeRequest → String → Request
  exchange : TokenRequest → String → String → Request
  revoke : String → String → String → Request
  validate : String → Request

module _ (strings : Strings) where
  unfoldable pub perform : Faults → Time → Request → Server → Server
  perform f now (authorize r code) s = (handle_authorize strings f now r code s).0
  perform f now (exchange r access refresh) s = (handle_token strings f now r access refresh s).0
  perform f now (revoke method token hint) s = (handle_revoke strings f now method token hint s).0
  perform f now (validate access) s = (validate_access_token strings f now access s).0

  unfoldable pub perform_all : List (Faults × Time × Request) → Server → Server
  unfolding perform
  perform_all [] s = s
  perform_all ((f, now, r) ∷ rs) s = perform_all rs (perform f now r s)
