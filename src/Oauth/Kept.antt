-- ===== src/Oauth/Kept.antt =====
-- The requests of pkg/control-plane/oauth/server.go, one by one and in a sequence.
use sai_aurosy.Prelude.{
  inl, inr, ◌||◌, Option, none, some, List, [], ◌∷◌, String, ◌==◌, Bool-cases, ltb,
}
use sai_aurosy.Hal.{Time}
use sai_aurosy.Oauth.{
  Client, Token, Server, Faults, Strings, TokenRequest, find_client, find_by_access,
  find_by_refresh,
}
use sai_aurosy.Oauth.Requests.{
  Grant, refused, granted, grant, issue, token_client, handle_token, revoke_found, handle_revoke,
  live_token, validate_access_token, Request, authorize, exchange, revoke, validate, perform,
  perform_all,
}
use sai_aurosy.Oauth.Scoped.{IsScoped, save_token-IsScoped, delete_token-IsScoped}
use sai_aurosy.Oauth.Granted.{IsGranted, handle_authorize-IsScoped, grant-IsGranted}

module _ (strings : Strings) (f : Faults) (now : Time) where
  issue-IsScoped :
      (r : TokenRequest) (access refresh : String) (g : Server × Grant)
      → IsGranted strings f now r.client_id g
      → IsScoped (issue strings f now r access refresh g).0
  unfolding issue
  issue-IsScoped r access refresh (s, refused reply) v = v
  issue-IsScoped r access refresh (s, granted tenant_id scopes) (v, b) =
      save_token-IsScoped strings f now _ s _ b v

  token_client-IsScoped :
      (r : TokenRequest) (access refresh : String) (o : Option Client) (s : Server)
      → IsScoped s
      → IsScoped (token_client strings f now r access refresh o s).0
  unfolding token_client
  token_client-IsScoped r access refresh none s v = v
  token_client-IsScoped r access refresh (some c) s v =
      elim (Bool-cases (strings.hash_sha256 r.client_secret == c.client_secret_hash)) [
        | inl e ↦ simp e (
            issue-IsScoped r access refresh (grant strings f now r s)
              (grant-IsGranted strings f now r s v))
        | inr e ↦ simp e v
      ]

  handle_token-IsScoped :
      (r : TokenRequest) (access refresh : String) (s : Server)
      → IsScoped s
      → IsScoped (handle_token strings f now r access refresh s).0
  unfolding handle_token
  handle_token-IsScoped r access refresh s v = elim (Bool-cases (r.method == "POST")) [
    | inr e ↦ simp e v
    | inl e ↦ elim (Bool-cases (r.client_id == "" || r.client_secret == "")) [
      | inl g ↦ simp (e, g) v
      | inr g ↦
          simp (e, g)
            (token_client-IsScoped r access refresh (find_client strings f now r.client_id s) s v)
    ]
  ]

  revoke_found-IsScoped :
      (o : Option Token) (s : Server) → IsScoped s → IsScoped (revoke_found strings f now o s)
  unfolding revoke_found
  revoke_found-IsScoped none s v = v
  revoke_found-IsScoped (some t) s v = delete_token-IsScoped strings f now t.access_token_hash s v

  handle_revoke-IsScoped :
      (method token hint : String) (s : Server)
      → IsScoped s
      → IsScoped (handle_revoke strings f now method token hint s).0
  unfolding handle_revoke
  handle_revoke-IsScoped method token hint s v = elim (Bool-cases (method == "POST")) [
    | inr e ↦ simp e v
    | inl e ↦ elim (Bool-cases (token == "")) [
      | inl g ↦ simp (e, g) v
      | inr g ↦
          let hash = strings.hash_sha256 token in
          elim (Bool-cases (hint == "refresh_token")) [
            | inl h ↦
                simp (e, g, h) (revoke_found-IsScoped (find_by_refresh strings f now hash s) s v)
            | inr h ↦ simp (e, g, h) (delete_token-IsScoped strings f now hash s v)
          ]
    ]
  ]

  live_token-IsScoped :
      (hash : String) (o : Option Token) (s : Server)
      → IsScoped s
      → IsScoped (live_token strings f now hash o s).0
  unfolding live_token
  live_token-IsScoped hash none s v = v
  live_token-IsScoped hash (some t) s v = elim (Bool-cases (ltb t.expires_at now)) [
    | inl e ↦ simp e (delete_token-IsScoped strings f now hash s v)
    | inr e ↦ simp e v
  ]

  validate_access_token-IsScoped :
      (access : String) (s : Server)
      → IsScoped s
      → IsScoped (validate_access_token strings f now access s).0
  unfolding validate_access_token
  validate_access_token-IsScoped access s v = elim (Bool-cases (access == "")) [
    | inl e ↦ simp e v
    | inr e ↦
        let hash = strings.hash_sha256 access in
        simp e (live_token-IsScoped hash (find_by_access strings f now hash s) s v)
  ]

  perform-IsScoped : (r : Request) (s : Server) → IsScoped s → IsScoped (perform strings f now r s)
  unfolding perform
  perform-IsScoped (authorize r code) s v = handle_authorize-IsScoped strings f now r code s v
  perform-IsScoped (exchange r access refresh) s v = handle_token-IsScoped r access refresh s v
  perform-IsScoped (revoke method token hint) s v = handle_revoke-IsScoped method token hint s v
  perform-IsScoped (validate access) s v = validate_access_token-IsScoped access s v

-- If each stored code and token has a registered client with its identifier and tenant that may have all
-- its scopes, then this holds after any authorizations, exchanges, revocations and
-- validations, whichever calls of the stores fail.
pub perform_all-IsScoped :
    (strings : Strings) (rs : List (Faults × Time × Request)) (s : Server)
    → IsScoped s
    → IsScoped (perform_all strings rs s)
unfolding perform_all
perform_all-IsScoped strings [] s v = v
perform_all-IsScoped strings ((f, now, r) ∷ rs) s v =
    perform_all-IsScoped strings rs (perform strings f now r s)
      (perform-IsScoped strings f now r s v)
