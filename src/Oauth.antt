-- ===== src/Oauth.antt =====
-- pkg/control-plane/oauth: the clients, codes and tokens of store.go and the requests of server.go. A
-- store is the list of what was created in it, and `Faults` says which calls of a store return an error;
-- for the lookups the handlers treat this like a missing entry. What a random token is, and the
-- functions of sha256 and strings, are arguments.
pub mod Requests
pub mod Scoped
pub mod Granted
pub mod Kept
pub mod SingleUse
mod Examples
use sai_aurosy.Prelude.{
  ℕ, ◌+◌, Bool, true, false, not, ◌&&◌, ◌||◌, Option, none, some, List, [], ◌∷◌, ◌++◌, map, String,
  ◌==◌, contains, ltb, if◌then◌else◌,
}
use sai_aurosy.Prelude.Lists.{select}
use sai_aurosy.Hal.{Time}

pub record Client : Type 0 where
  pub client_id : String
  pub client_secret_hash : String
  pub redirect_uris : List String
  pub scopes : List String
  pub tenant_id : String

pub record AuthCode : Type 0 where
  pub code_hash : String
  pub client_id : String
  pub tenant_id : String
  pub scopes : List String
  pub redirect_uri : String
  pub expires_at : Time

pub record Token : Type 0 where
  pub access_token_hash : String
  pub refresh_token_hash : String
  pub client_id : String
  pub tenant_id : String
  pub scopes : List String
  pub expires_at : Time

pub record Server : Type 0 where
  pub clients : List Client
  pub codes : List AuthCode
  pub tokens : List Token
  pub access_ttl : Time

pub record Faults : Type 0 where
  pub client_lookup : Bool
  pub code_lookup : Bool
  pub code_create : Bool
  pub code_delete : Bool
  pub token_lookup : Bool
  pub token_create : Bool
  pub token_delete : Bool

pub record Strings : Type 0 where
  pub hash_sha256 : String → String
  pub split_spaces : String → List String
  pub trim_space : String → String

-- What a handler answers.
pub data Reply : Type 0 where
  oauth_error : String → ℕ → Reply
  redirected : String → String → String → Reply
  issued : String → String → List String → Reply
  revoked : Reply

unfoldable pub first {ℓ} : {A : Type ℓ} → (A → Bool) → List A → Option A
first p [] = none
first p (x ∷ xs) = let rest = first p xs in if p x then some x else rest

unfoldable pub contains_scope : List String → String → Bool
contains_scope scopes s = contains scopes s

unfoldable pub all_allowed : List String → List String → Bool
unfolding contains_scope
all_allowed allowed [] = true
all_allowed allowed (s ∷ ss) = contains_scope allowed s && all_allowed allowed ss

unfoldable pub or_all : List String → List String → List String
or_all [] all_of_client = all_of_client
or_all (s ∷ ss) all_of_client = s ∷ ss

module _ (strings : Strings) where
  unfoldable pub parse_scopes : String → List String
  parse_scopes s =
      if s == ""
      then []
      else select (λ p. not (p == "")) (map strings.trim_space (strings.split_spaces s))

pub record AuthorizeRequest : Type 0 where
  pub client_id : String
  pub redirect_uri : String
  pub response_type : String
  pub scope : String
  pub state : String

pub record TokenRequest : Type 0 where
  pub method : String
  pub grant_type : String
  pub client_id : String
  pub client_secret : String
  pub code : String
  pub redirect_uri : String
  pub refresh_token : String

module _ (strings : Strings) (f : Faults) (now : Time) where
  unfoldable pub find_client : String → Server → Option Client
  find_client id s = if f.client_lookup then none else first (λ c. c.client_id == id) s.clients

  unfoldable pub find_code : String → Server → Option AuthCode
  find_code hash s = if f.code_lookup then none else first (λ c. c.code_hash == hash) s.codes

  unfoldable pub find_by_access : String → Server → Option Token
  find_by_access hash s =
      if f.token_lookup then none else first (λ t. t.access_token_hash == hash) s.tokens

  unfoldable pub find_by_refresh : String → Server → Option Token
  find_by_refresh hash s =
      if f.token_lookup then none else first (λ t. t.refresh_token_hash == hash) s.tokens

  unfoldable pub save_code : AuthCode → Server → Option Server
  save_code c s = if f.code_create then none else some (record s { codes = s.codes ++ c ∷ [] })

  unfoldable pub delete_code : String → Server → Server
  delete_code hash s =
      if f.code_delete
      then s
      else record s { codes = select (λ c. not (c.code_hash == hash)) s.codes }

  unfoldable pub save_token : Token → Server → Option Server
  save_token t s = if f.token_create then none else some (record s { tokens = s.tokens ++ t ∷ [] })

  unfoldable pub delete_token : String → Server → Server
  delete_token hash s =
      if f.token_delete
      then s
      else record s { tokens = select (λ t. not (t.access_token_hash == hash)) s.tokens }

  -- HandleAuthorize, from the code on: `code` is the random token.
  unfoldable pub after_save : Reply → Option Server → Server → Server × Reply
  after_save reply none s = (s, oauth_error "server_error" 500)
  after_save reply (some s') s = (s', reply)

  unfoldable pub authorize_client :
      AuthorizeRequest → String → Option Client → Server → Server × Reply
  authorize_client r code none s = (s, oauth_error "invalid_client" 401)
  authorize_client r code (some client) s =
      let scopes = or_all (parse_scopes strings r.scope) client.scopes in
      if not (contains client.redirect_uris r.redirect_uri)
      then (s, oauth_error "invalid_request" 400)
      else if not (all_allowed client.scopes scopes)
      then (s, oauth_error "invalid_scope" 400)
      else after_save (redirected r.redirect_uri code r.state)
          (save_code
            (record {
              code_hash = strings.hash_sha256 code;
              client_id = r.client_id;
              tenant_id = client.tenant_id;
              scopes = scopes;
              redirect_uri = r.redirect_uri;
              expires_at = now + 600000;
            })
            s)
          s

  unfoldable pub handle_authorize : AuthorizeRequest → String → Server → Server × Reply
  unfolding authorize_client
  handle_authorize r code s =
      if r.client_id == "" || (r.redirect_uri == "" || not (r.response_type == "code"))
      then (s, oauth_error "invalid_request" 400)
      else authorize_client r code (find_client r.client_id s) s
