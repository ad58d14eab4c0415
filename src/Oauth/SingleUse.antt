-- ===== src/Oauth/SingleUse.antt =====
-- Two exchanges of one code by HandleToken in pkg/control-plane/oauth/server.go.
use sai_aurosy.Prelude.{
  ◌≡◌, ◌≢◌, ◌⊎◌, refl, sym, subst, inl, inr, Bool, true, false, not, ◌||◌, Option, none, some, Memᴰ,
  String, ◌==◌, eq_iff, arith, Bool-cases, Option-cases, ltb,
}
use sai_aurosy.Selected.{of-select}
use sai_aurosy.Hal.{Time}
use sai_aurosy.Oauth.{
  Client, AuthCode, Server, Faults, Strings, Reply, oauth_error, redirected, issued, revoked,
  TokenRequest, first, find_client, find_code, delete_code, save_token, after_save,
}
use sai_aurosy.Oauth.Requests.{
  Grant, refused, granted, code_grant, grant, issue, token_client, handle_token,
}
use sai_aurosy.Oauth.Scoped.{first-found}

abbrev pub was_issued : Reply → Bool
was_issued (oauth_error e status) = false
was_issued (redirected uri code state) = false
was_issued (issued access refresh scopes) = true
was_issued revoked = false

NoCode : String → Server → Type 0
NoCode hash s = (c : AuthCode) → Memᴰ c s.codes → c.code_hash ≢ hash

-- An exchange that is refused has no token; one that is granted leaves no such code.
abbrev IsSpent : String → Server × Grant → Type 0
IsSpent hash (s, refused reply) = was_issued reply ≡ false
IsSpent hash (s, granted tenant_id scopes) = NoCode hash s

abbrev IsRefused : Server × Grant → Type 0
IsRefused (s, refused reply) = was_issued reply ≡ false
IsRefused (s, granted tenant_id scopes) = ⊥

module _ (strings : Strings) (f : Faults) (now : Time) where
  delete_code-NoCode :
      (hash : String) (s : Server)
      → f.code_delete ≡ false
      → NoCode hash (delete_code strings f now hash s)
  unfolding delete_code NoCode
  delete_code-NoCode hash s e = simp e (λ c m same.
      let (kept, p) = of-select (λ c. not (c.code_hash == hash)) c s.codes m in
      ground (arith, p, eq_iff c.code_hash hash, same))

  find_code-none :
      (hash : String) (s : Server) → NoCode hash s → find_code strings f now hash s ≡ none
  unfolding find_code NoCode
  find_code-none hash s no_code = elim (Bool-cases f.code_lookup) [
    | inl e ↦ simp e refl
    | inr e ↦ elim (Option-cases (first (λ (c : AuthCode). c.code_hash == hash) s.codes)) [
      | inl g ↦ simp (e, g) refl
      | inr (c, g) ↦
          let (m, p) = first-found (λ c. c.code_hash == hash) c s.codes g in
          absurd (no_code c m ((eq_iff c.code_hash hash).0 p))
    ]
  ]

  code_grant-IsSpent :
      (r : TokenRequest) (o : Option AuthCode) (s : Server)
      → f.code_delete ≡ false
      → IsSpent (strings.hash_sha256 r.code) (code_grant strings f now r o s)
  unfolding code_grant
  code_grant-IsSpent r none s d = refl
  code_grant-IsSpent r (some c) s d =
      elim (Bool-cases
        (not (c.client_id == r.client_id) || not (c.redirect_uri == r.redirect_uri))) [
          | inl g ↦ simp g refl
          | inr g ↦ elim (Bool-cases (ltb c.expires_at now)) [
            | inl e ↦ simp (g, e) refl
            | inr e ↦ simp (g, e) (delete_code-NoCode (strings.hash_sha256 r.code) s d)
          ]
        ]

  grant-IsSpent :
      (r : TokenRequest) (s : Server)
      → r.grant_type ≡ "authorization_code"
      → f.code_delete ≡ false
      → IsSpent (strings.hash_sha256 r.code) (grant strings f now r s)
  unfolding grant
  grant-IsSpent r s a d = elim (Bool-cases (r.code == "" || r.redirect_uri == "")) [
    | inl g ↦ simp (a, g) refl
    | inr g ↦
        simp (a, g)
          (code_grant-IsSpent r (find_code strings f now (strings.hash_sha256 r.code) s) s d)
  ]

  grant-IsRefused :
      (r : TokenRequest) (s : Server)
      → r.grant_type ≡ "authorization_code"
      → NoCode (strings.hash_sha256 r.code) s
      → IsRefused (grant strings f now r s)
  unfolding grant code_grant
  grant-IsRefused r s a no_code =
      let gone = find_code-none (strings.hash_sha256 r.code) s no_code in
      elim (Bool-cases (r.code == "" || r.redirect_uri == "")) [
        | inl g ↦ simp (a, g) refl
        | inr g ↦ simp (a, g, gone) refl
      ]

  issue-NoCode :
      (r : TokenRequest) (access refresh hash : String) (g : Server × Grant)
      → IsSpent hash g
      → was_issued (issue strings f now r access refresh g).1 ≡ true
      → NoCode hash (issue strings f now r access refresh g).0
  unfolding issue after_save save_token NoCode
  issue-NoCode r access refresh hash (s, refused reply) spent h = cc
  issue-NoCode r access refresh hash (s, granted tenant_id scopes) spent h =
      elim (Bool-cases f.token_create) [ inl e ↦ simp e spent | inr e ↦ simp e spent ]

  issue-refused :
      (r : TokenRequest) (access refresh : String) (g : Server × Grant)
      → IsRefused g
      → was_issued (issue strings f now r access refresh g).1 ≡ false
  unfolding issue
  issue-refused r access refresh (s, refused reply) h = h
  issue-refused r access refresh (s, granted tenant_id scopes) h = absurd h

  token_client-either :
      (r : TokenRequest) (access refresh : String) (o : Option Client) (s : Server)
      → (was_issued (token_client strings f now r access refresh o s).1 ≡ false)
        ⊎ (token_client strings f now r access refresh o s
            ≡ issue strings f now r access refresh (grant strings f now r s))
  unfolding token_client
  token_client-either r access refresh none s = inl refl
  token_client-either r access refresh (some c) s =
      elim (Bool-cases (strings.hash_sha256 r.client_secret == c.client_secret_hash)) [
        | inl e ↦ inr (simp e refl)
        | inr e ↦ inl (simp e refl)
      ]

  -- An exchange gives no token, or ends as its grant does.
  handle_token-either :
      (r : TokenRequest) (access refresh : String) (s : Server)
      → (was_issued (handle_token strings f now r access refresh s).1 ≡ false)
        ⊎ (handle_token strings f now r access refresh s
            ≡ issue strings f now r access refresh (grant strings f now r s))
  unfolding handle_token
  handle_token-either r access refresh s = elim (Bool-cases (r.method == "POST")) [
    | inr e ↦ inl (simp e refl)
    | inl e ↦ elim (Bool-cases (r.client_id == "" || r.client_secret == "")) [
      | inl g ↦ inl (simp (e, g) refl)
      | inr g ↦
          simp (e, g)
            (token_client-either r access refresh (find_client strings f now r.client_id s) s)
    ]
  ]

  handle_token-NoCode :
      (r : TokenRequest) (access refresh : String) (s : Server)
      → r.grant_type ≡ "authorization_code"
      → f.code_delete ≡ false
      → was_issued (handle_token strings f now r access refresh s).1 ≡ true
      → NoCode (strings.hash_sha256 r.code) (handle_token strings f now r access refresh s).0
  handle_token-NoCode r access refresh s a d h = elim (handle_token-either r access refresh s) [
    | inl e ↦ absurd (ground (arith, e, h))
    | inr e ↦
        let hash = strings.hash_sha256 r.code in
        let g = grant strings f now r s in
        subst (λ (p : Server × Reply). NoCode hash p.0) (sym e)
          (issue-NoCode r access refresh hash g (grant-IsSpent r s a d)
            (subst (λ (p : Server × Reply). was_issued p.1 ≡ true) e h))
  ]

  handle_token-refused :
      (r : TokenRequest) (access refresh : String) (s : Server)
      → r.grant_type ≡ "authorization_code"
      → NoCode (strings.hash_sha256 r.code) s
      → was_issued (handle_token strings f now r access refresh s).1 ≡ false
  handle_token-refused r access refresh s a no_code =
      elim (handle_token-either r access refresh s) [
        | inl e ↦ e
        | inr e ↦
            subst (λ (p : Server × Reply). was_issued p.1 ≡ false) (sym e)
              (issue-refused r access refresh (grant strings f now r s)
                (grant-IsRefused r s a no_code))
      ]

-- After an exchange of a code gave a token, where the deletion of the code did not fail, a next exchange
-- of the same code gives none, whoever asks, at whatever time, and whichever calls of the stores fail.
pub handle_token-once :
    (strings : Strings) (f f' : Faults) (now now' : Time) (r r' : TokenRequest)
    → (access refresh access' refresh' : String) (s : Server) → f.code_delete ≡ false
    → r.grant_type ≡ "authorization_code"
    → r'.grant_type ≡ "authorization_code"
    → r'.code ≡ r.code
    → was_issued (handle_token strings f now r access refresh s).1 ≡ true
    → was_issued
        (handle_token strings f' now' r' access' refresh'
          (handle_token strings f now r access refresh s).0).1
      ≡ false
handle_token-once strings f f' now now' r r' access refresh access' refresh' s d a a' same h =
    let after = (handle_token strings f now r access refresh s).0 in
    handle_token-refused strings f' now' r' access' refresh' after a' (
      subst (λ code. NoCode (strings.hash_sha256 code) after) (sym same)
        (handle_token-NoCode strings f now r access refresh s a d h))
