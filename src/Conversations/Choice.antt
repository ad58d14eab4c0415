-- ===== src/Conversations/Choice.antt =====
-- GetByIntent of pkg/control-plane/conversations/memorystore.go.
use sai_aurosy.Prelude.{
  ◌≡◌, ◌≢◌, refl, sym, ap, subst, inl, inr, true, false, Option, none, some, List, [], ◌∷◌, Memᴰ,
  String, ◌==◌, eq_iff, arith, Bool-cases, ◌&&◌,
}
use sai_aurosy.Dict
use sai_aurosy.Conversations.{Conversation, MemoryStore, is_own, shared_match, scan, get_by_intent}

module _ (intent tenant_id : String) where
  -- No conversation for the intent is the tenant's own, or shared.
  abbrev pub NoOwn : List Conversation → Type 0
  NoOwn cs =
      (c : Conversation) → Memᴰ c cs → c.intent ≡ intent → c.tenant_id ≡ tenant_id → tenant_id ≡ ""

  abbrev pub NoShared : List Conversation → Type 0
  NoShared cs = (c : Conversation) → Memᴰ c cs → c.intent ≡ intent → c.tenant_id ≢ ""

  -- What a scan of the conversations answers when the shared match before it was `before`.
  pub data Chosen : List Conversation → Option Conversation → Option Conversation → Type 0 where
    own :
        {cs : List Conversation} {before : Option Conversation} {c : Conversation}
        → Memᴰ c cs
        → c.intent ≡ intent
        → c.tenant_id ≡ tenant_id
        → tenant_id ≢ ""
        → Chosen cs before (some c)
    shared :
        {cs : List Conversation} {before : Option Conversation} {c : Conversation}
        → NoOwn cs
        → Memᴰ c cs
        → c.intent ≡ intent
        → c.tenant_id ≡ ""
        → Chosen cs before (some c)
    passed :
        {cs : List Conversation} {before result : Option Conversation}
        → NoOwn cs
        → NoShared cs
        → result ≡ before
        → Chosen cs before result

  is_own-parts :
      (c : Conversation)
      → is_own intent tenant_id c ≡ true
      → (c.intent ≡ intent) × (c.tenant_id ≡ tenant_id) × (tenant_id ≢ "")
  unfolding is_own
  is_own-parts c h = (
    ground (arith, h, eq_iff c.intent intent),
    ground (arith, h, eq_iff c.tenant_id tenant_id),
    ground (arith, h, eq_iff tenant_id ""),
  )

  NoOwn-cons :
      (c : Conversation) (cs : List Conversation)
      → is_own intent tenant_id c ≡ false
      → NoOwn cs
      → NoOwn (c ∷ cs)
  unfolding is_own
  NoOwn-cons c cs h none_own d (Memᴰ.head e) i t = ground (
    arith,
    h,
    eq_iff c.intent intent,
    eq_iff c.tenant_id tenant_id,
    eq_iff tenant_id "",
    ap (λ (x : Conversation). x.intent) e,
    ap (λ (x : Conversation). x.tenant_id) e,
    i,
    t,
  )
  NoOwn-cons c cs h none_own d (Memᴰ.tail m) i t = none_own d m i t

  NoShared-cons :
      (c : Conversation) (cs : List Conversation)
      → (c.intent == intent && c.tenant_id == "") ≡ false
      → NoShared cs
      → NoShared (c ∷ cs)
  NoShared-cons c cs h none_shared d (Memᴰ.head e) i t = ground (
    arith,
    h,
    eq_iff c.intent intent,
    eq_iff c.tenant_id "",
    ap (λ (x : Conversation). x.intent) e,
    ap (λ (x : Conversation). x.tenant_id) e,
    i,
    t,
  )
  NoShared-cons c cs h none_shared d (Memᴰ.tail m) i t = none_shared d m i t

  -- One conversation that is not the tenant's own, before what the rest of the scan answers.
  Chosen-cons :
      (c : Conversation) (cs : List Conversation) (before result : Option Conversation)
      → is_own intent tenant_id c ≡ false
      → Chosen cs (shared_match intent c before) result
      → Chosen (c ∷ cs) before result
  unfolding shared_match
  Chosen-cons c cs before (some d) h (own m i t n) = own (Memᴰ.tail m) i t n
  Chosen-cons c cs before (some d) h (shared none_own m i t) =
      shared (NoOwn-cons c cs h none_own) (Memᴰ.tail m) i t
  Chosen-cons c cs before result h (passed none_own none_shared e) =
      elim (Bool-cases (c.intent == intent && c.tenant_id == "")) [
        | inl s ↦ subst (Chosen (c ∷ cs) before) (sym (simp s at e)) (
            shared (NoOwn-cons c cs h none_own) (Memᴰ.head refl)
              (ground (arith, s, eq_iff c.intent intent))
              (ground (arith, s, eq_iff c.tenant_id "")))
        | inr s ↦
            passed (NoOwn-cons c cs h none_own) (NoShared-cons c cs s none_shared) (simp s at e)
      ]

  scan-Chosen :
      (cs : List Conversation) (before : Option Conversation)
      → Chosen cs before (scan intent tenant_id cs before)
  unfolding scan
  scan-Chosen [] before = passed (λ c m. elim m [ ]) (λ c m. elim m [ ]) refl
  scan-Chosen (c ∷ cs) before = elim (Bool-cases (is_own intent tenant_id c)) [
    | inl h ↦
        let (i, t, n) = is_own-parts c h in
        simp h (own {cs = c ∷ cs} {before = before} (Memᴰ.head refl) i t n)
    | inr h ↦
        let next = shared_match intent c before in
        simp h (Chosen-cons c cs before (scan intent tenant_id cs next) h (scan-Chosen cs next))
  ]

  -- GetByIntent answers, in whatever order the store's entries come, with a stored conversation for the
  -- intent of the tenant itself if there is one, else with a shared one if there is one, and else
  -- with none.
  pub get_by_intent-Chosen :
      (s : MemoryStore) → Chosen (Dict.values s.by_id) none (get_by_intent intent tenant_id s)
  unfolding get_by_intent
  get_by_intent-Chosen s = scan-Chosen (Dict.values s.by_id) none
