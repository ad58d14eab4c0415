-- ===== src/Oauth/Granted.antt =====
-- HandleAuthorize and the grants of HandleToken in pkg/control-plane/oauth/server.go.
use sai_aurosy.Prelude.{
  ◌≡◌, refl, sym, subst, inl, inr, not, ◌||◌, Option, none, some, Memᴰ, String, ◌==◌, eq_iff, arith,
  Bool-cases, Option-cases, contains, ltb,
}
use sai_aurosy.Hal.{Time}
use sai_aurosy.Oauth.{
  Client, AuthCode, Token, Server, Faults, Strings, AuthorizeRequest, TokenRequest, or_all,
  parse_scopes, all_allowed, find_client, find_code, find_by_refresh, delete_code, authorize_client,
  handle_authorize,
}
use sai_aurosy.Oauth.Requests.{Grant, refused, granted, code_grant, refresh_grant, grant}
use sai_aurosy.Oauth.Scoped.{
  Backed, IsScoped, all_allowed-Memᴰ, find_client-found, find_code-found, find_by_refresh-found,
  save_code-IsScoped, delete_code-IsScoped,
}

module _ (strings : Strings) (f : Faults) (now : Time) where
  authorize_client-IsScoped :
      (r : AuthorizeRequest) (code : String) (client : Client) (s : Server)
      → Memᴰ client s.clients
      → client.client_id ≡ r.client_id
      → IsScoped s
      → IsScoped (authorize_client strings f now r code (some client) s).0
  unfolding authorize_client
  authorize_client-IsScoped r code client s m e v =
      let scopes = or_all (parse_scopes strings r.scope) client.scopes in
      elim (Bool-cases (contains client.redirect_uris r.redirect_uri)) [
        | inr u ↦ simp u v
        | inl u ↦ elim (Bool-cases (all_allowed client.scopes scopes)) [
          | inr a ↦ simp (u, a) v
          | inl a ↦
              simp (u, a)
                (save_code-IsScoped strings f now _ s _
                  (record {
                    client = client;
                    registered = m;
                    same_id = e;
                    same_tenant = refl;
                    allowed = λ x. all_allowed-Memᴰ client.scopes scopes x a;
                  })
                  v)
        ]
      ]

  pub handle_authorize-IsScoped :
      (r : AuthorizeRequest) (code : String) (s : Server)
      → IsScoped s
      → IsScoped (handle_authorize strings f now r code s).0
  unfolding handle_authorize authorize_client
  handle_authorize-IsScoped r code s v =
      elim (Bool-cases
        (r.client_id == "" || (r.redirect_uri == "" || not (r.response_type == "code")))) [
          | inl g ↦ simp g v
          | inr g ↦ elim (Option-cases (find_client strings f now r.client_id s)) [
            | inl e ↦ simp (g, e) v
            | inr (client, e) ↦
                let (m, same) = find_client-found strings f now r.client_id client s e in
                simp (g, e) (authorize_client-IsScoped r code client s m same v)
          ]
        ]

  delete_code-clients :
      (hash : String) (s : Server) → (delete_code strings f now hash s).clients ≡ s.clients
  unfolding delete_code
  delete_code-clients hash s = elim (Bool-cases f.code_delete) [
    | inl e ↦ simp e refl
    | inr e ↦ simp e refl
  ]

  -- The server that a grant leaves is fine, and the client has what is granted.
  abbrev pub IsGranted : String → Server × Grant → Type 0
  IsGranted id (s, refused reply) = IsScoped s
  IsGranted id (s, granted tenant_id scopes) = IsScoped s × Backed s.clients id tenant_id scopes

  code_grant-IsGranted :
      (r : TokenRequest) (c : AuthCode) (s : Server)
      → Memᴰ c s.codes
      → IsScoped s
      → IsGranted r.client_id (code_grant strings f now r (some c) s)
  unfolding code_grant
  code_grant-IsGranted r c s m v =
      let deleted = delete_code-IsScoped strings f now (strings.hash_sha256 r.code) s v in
      elim (Bool-cases
        (not (c.client_id == r.client_id) || not (c.redirect_uri == r.redirect_uri))) [
          | inl g ↦ simp g v
          | inr g ↦ elim (Bool-cases (ltb c.expires_at now)) [
            | inl e ↦ simp (g, e) deleted
            | inr e ↦
                let id : c.client_id ≡ r.client_id =
                  ground (arith, g, eq_iff c.client_id r.client_id) in
                simp (g, e)
                  (
                    deleted,
                    subst (λ clients. Backed clients r.client_id c.tenant_id c.scopes)
                        (sym (delete_code-clients (strings.hash_sha256 r.code) s))
                        (subst (λ i. Backed s.clients i c.tenant_id c.scopes) id
                          (v.codes_backed c m)),
                  )
          ]
        ]

  refresh_grant-IsGranted :
      (r : TokenRequest) (t : Token) (s : Server)
      → Memᴰ t s.tokens
      → IsScoped s
      → IsGranted r.client_id (s, refresh_grant strings f now r (some t))
  unfolding refresh_grant
  refresh_grant-IsGranted r t s m v = elim (Bool-cases (t.client_id == r.client_id)) [
    | inl e ↦ simp e (
      v,
      subst (λ i. Backed s.clients i t.tenant_id t.scopes) ((eq_iff t.client_id r.client_id).0 e)
          (v.tokens_backed t m),
    )
    | inr e ↦ simp e v
  ]

  code_grant_any :
      (r : TokenRequest) (o : Option AuthCode) (s : Server)
      → ((c : AuthCode) → o ≡ some c → Memᴰ c s.codes)
      → IsScoped s
      → IsGranted r.client_id (code_grant strings f now r o s)
  unfolding code_grant
  code_grant_any r none s m v = v
  code_grant_any r (some c) s m v = code_grant-IsGranted r c s (m c refl) v

  refresh_grant_any :
      (r : TokenRequest) (o : Option Token) (s : Server)
      → ((t : Token) → o ≡ some t → Memᴰ t s.tokens)
      → IsScoped s
      → IsGranted r.client_id (s, refresh_grant strings f now r o)
  unfolding refresh_grant
  refresh_grant_any r none s m v = v
  refresh_grant_any r (some t) s m v = refresh_grant-IsGranted r t s (m t refl) v

  pub grant-IsGranted :
      (r : TokenRequest) (s : Server) → IsScoped s → IsGranted r.client_id (grant strings f now r s)
  unfolding grant
  grant-IsGranted r s v = elim (Bool-cases (r.grant_type == "authorization_code")) [
    | inl a ↦ elim (Bool-cases (r.code == "" || r.redirect_uri == "")) [
      | inl g ↦ simp (a, g) v
      | inr g ↦
          let hash = strings.hash_sha256 r.code in
          simp (a, g)
            (code_grant_any r (find_code strings f now hash s) s
              (λ c. find_code-found strings f now hash c s) v)
    ]
    | inr a ↦ elim (Bool-cases (r.grant_type == "refresh_token")) [
      | inr b ↦ simp (a, b) v
      | inl b ↦ elim (Bool-cases (r.refresh_token == "")) [
        | inl g ↦ simp (a, b, g) v
        | inr g ↦
            let hash = strings.hash_sha256 r.refresh_token in
            simp (a, b, g)
              (refresh_grant_any r (find_by_refresh strings f now hash s) s
                (λ t. find_by_refresh-found strings f now hash t s) v)
      ]
    ]
  ]
