-- ===== src/Oauth/Scoped.antt =====
-- What backs the codes and the tokens of pkg/control-plane/oauth, and the calls of the stores.
use sai_aurosy.Prelude.{
  ◌≡◌, sym, ap, subst, ◌∙◌, ◌⊎◌, inl, inr, Bool, true, not, none, some, List, [], ◌∷◌, ◌++◌, Memᴰ,
  String, ◌==◌, eq_iff, arith, Bool-cases, ◌≢◌,
}
use sai_aurosy.Selected.{of-select}
use sai_aurosy.Hal.{Time}
use sai_aurosy.Hal.Capability.{Memᴰ-of-contains}
use sai_aurosy.Oauth.{
  Client, AuthCode, Token, Server, Faults, Strings, Reply, first, all_allowed, contains_scope,
  find_client, find_code, find_by_refresh, save_code, delete_code, save_token, delete_token,
  after_save,
}

-- A registered client of that identifier has the tenant and all the scopes.
pub record Backed (clients : List Client) (client_id tenant_id : String) (scopes : List String)
    : Type 0 where
  pub client : Client
  pub registered : Memᴰ client clients
  pub same_id : client.client_id ≡ client_id
  pub same_tenant : client.tenant_id ≡ tenant_id
  pub allowed : (x : String) → Memᴰ x scopes → Memᴰ x client.scopes

pub record IsScoped (s : Server) : Type 0 where
  pub codes_backed :
      (c : AuthCode) → Memᴰ c s.codes → Backed s.clients c.client_id c.tenant_id c.scopes
  pub tokens_backed :
      (t : Token) → Memᴰ t s.tokens → Backed s.clients t.client_id t.tenant_id t.scopes

some_same : {A : Type 0} (x y : A) → some x ≡ some y → x ≡ y
some_same x y h = cc

pub some_not_none : {A : Type 0} (x : A) → none ≢ some x
some_not_none x h = cc

pub first-found :
    {A : Type 0} (p : A → Bool) (x : A) (xs : List A)
    → first p xs ≡ some x
    → Memᴰ x xs × (p x ≡ true)
unfolding first
first-found p x [] h = absurd (some_not_none x h)
first-found p x (y ∷ ys) h = elim (Bool-cases (p y)) [
  | inl e ↦ let same = some_same y x (simp e at h) in (Memᴰ.head (sym same), ap p (sym same) ∙ e)
  | inr e ↦ let (m, q) = first-found p x ys (simp e at h) in (Memᴰ.tail m, q)
]

last-or : {A : Type 0} (x y : A) (xs : List A) → Memᴰ x (xs ++ y ∷ []) → Memᴰ x xs ⊎ (x ≡ y)
last-or x y [] (Memᴰ.head e) = inr e
last-or x y [] (Memᴰ.tail m) = elim m [ ]
last-or x y (z ∷ zs) (Memᴰ.head e) = inl (Memᴰ.head e)
last-or x y (z ∷ zs) (Memᴰ.tail m) = elim (last-or x y zs m) [
  | inl k ↦ inl (Memᴰ.tail k)
  | inr e ↦ inr e
]

pub all_allowed-Memᴰ :
    (allowed ss : List String) (x : String)
    → all_allowed allowed ss ≡ true
    → Memᴰ x ss
    → Memᴰ x allowed
unfolding all_allowed contains_scope
all_allowed-Memᴰ allowed [] x h m = elim m [ ]
all_allowed-Memᴰ allowed (s ∷ ss) x h (Memᴰ.head e) =
    subst (λ y. Memᴰ y allowed) (sym e) (Memᴰ-of-contains allowed s (ground (arith, h)))
all_allowed-Memᴰ allowed (s ∷ ss) x h (Memᴰ.tail m) =
    all_allowed-Memᴰ allowed ss x (ground (arith, h)) m

module _ (strings : Strings) (f : Faults) (now : Time) where
  pub find_client-found :
      (id : String) (c : Client) (s : Server)
      → find_client strings f now id s ≡ some c
      → Memᴰ c s.clients × (c.client_id ≡ id)
  unfolding find_client
  find_client-found id c s h = elim (Bool-cases f.client_lookup) [
    | inl e ↦ absurd (some_not_none c (simp e at h))
    | inr e ↦
        let (m, p) = first-found (λ c. c.client_id == id) c s.clients (simp e at h) in
        (m, (eq_iff c.client_id id).0 p)
  ]

  pub find_code-found :
      (hash : String) (c : AuthCode) (s : Server)
      → find_code strings f now hash s ≡ some c
      → Memᴰ c s.codes
  unfolding find_code
  find_code-found hash c s h = elim (Bool-cases f.code_lookup) [
    | inl e ↦ absurd (some_not_none c (simp e at h))
    | inr e ↦ (first-found (λ c. c.code_hash == hash) c s.codes (simp e at h)).0
  ]

  pub find_by_refresh-found :
      (hash : String) (t : Token) (s : Server)
      → find_by_refresh strings f now hash s ≡ some t
      → Memᴰ t s.tokens
  unfolding find_by_refresh
  find_by_refresh-found hash t s h = elim (Bool-cases f.token_lookup) [
    | inl e ↦ absurd (some_not_none t (simp e at h))
    | inr e ↦ (first-found (λ t. t.refresh_token_hash == hash) t s.tokens (simp e at h)).0
  ]

  -- Saving a code or a token that is backed, and deleting.
  pub save_code-IsScoped :
      (c : AuthCode) (s : Server) (reply : Reply)
      → Backed s.clients c.client_id c.tenant_id c.scopes
      → IsScoped s
      → IsScoped (after_save strings f now reply (save_code strings f now c s) s).0
  unfolding save_code after_save
  save_code-IsScoped c s reply b v = elim (Bool-cases f.code_create) [
    | inl e ↦ simp e v
    | inr e ↦ simp e (record {
      codes_backed = λ k m. elim (last-or k c s.codes m) [
        | inl old ↦ v.codes_backed k old
        | inr same ↦
            subst (λ (k : AuthCode). Backed s.clients k.client_id k.tenant_id k.scopes) (sym same) b
      ];
      tokens_backed = λ t m. v.tokens_backed t m;
    })
  ]

  pub save_token-IsScoped :
      (t : Token) (s : Server) (reply : Reply)
      → Backed s.clients t.client_id t.tenant_id t.scopes
      → IsScoped s
      → IsScoped (after_save strings f now reply (save_token strings f now t s) s).0
  unfolding save_token after_save
  save_token-IsScoped t s reply b v = elim (Bool-cases f.token_create) [
    | inl e ↦ simp e v
    | inr e ↦ simp e (record {
      codes_backed = λ c m. v.codes_backed c m;
      tokens_backed = λ k m. elim (last-or k t s.tokens m) [
        | inl old ↦ v.tokens_backed k old
        | inr same ↦
            subst (λ (k : Token). Backed s.clients k.client_id k.tenant_id k.scopes) (sym same) b
      ];
    })
  ]

  pub delete_code-IsScoped :
      (hash : String) (s : Server) → IsScoped s → IsScoped (delete_code strings f now hash s)
  unfolding delete_code
  delete_code-IsScoped hash s v = elim (Bool-cases f.code_delete) [
    | inl e ↦ simp e v
    | inr e ↦ simp e (record {
      codes_backed =
          λ c m. v.codes_backed c (of-select (λ c. not (c.code_hash == hash)) c s.codes m).0;
      tokens_backed = λ t m. v.tokens_backed t m;
    })
  ]

  pub delete_token-IsScoped :
      (hash : String) (s : Server) → IsScoped s → IsScoped (delete_token strings f now hash s)
  unfolding delete_token
  delete_token-IsScoped hash s v = elim (Bool-cases f.token_delete) [
    | inl e ↦ simp e v
    | inr e ↦ simp e (record {
      codes_backed = λ c m. v.codes_backed c m;
      tokens_backed = λ t m.
          v.tokens_backed t (of-select (λ t. not (t.access_token_hash == hash)) t s.tokens m).0;
    })
  ]
