-- ===== src/Validation/Sequence.antt =====
-- CheckEventSequence of internal/validation/event_checks.go.
use sai_aurosy.Prelude.{
  ◌≡◌, ◌↔◌, refl, sym, subst, inl, inr, true, not, some, List, [], ◌∷◌, map, String, ◌==◌, eq_iff,
  arith, Bool-cases, Option-cases,
}
use sai_aurosy.Validation.{
  Basics, Assertion, CollectedEvent, AssertionContext, seek, follow_rest, follow,
  check_event_sequence,
}
use sai_aurosy.Validation.Evaluate.{check_kind, evaluate_assertion}

some_injective : (a b : List String) → some a ≡ some b → a ≡ b
some_injective a b h = cc

-- The first list is left of the second when some of its items are taken away.
pub data Within : List String → List String → Type 0 where
  done : {ts : List String} → Within [] ts
  take_one : {x y : String} {xs ts : List String} → x ≡ y → Within xs ts → Within (x ∷ xs) (y ∷ ts)
  pass_one : {y : String} {xs ts : List String} → Within xs ts → Within xs (y ∷ ts)

-- What is within a list without its head is within it.
Within-tail : (x : String) (xs ts : List String) → Within (x ∷ xs) ts → Within xs ts
Within-tail x xs ts (take_one e w) = pass_one w
Within-tail x xs ts (pass_one {ts = rest} w) = pass_one (Within-tail x xs rest w)

-- The greedy search finds the wanted type, and leaves enough.
seek-found :
    (x : String) (xs ts : List String)
    → Within (x ∷ xs) ts
    → (rest : List String) × (seek x ts ≡ some rest) × Within xs rest
unfolding seek
seek-found x xs [] w = elim w [ ]
seek-found x xs (y ∷ ts) (take_one e w) = (ts, ground (arith, eq_iff y x, e), w)
seek-found x xs (y ∷ ts) (pass_one w) = elim (Bool-cases (y == x)) [
  | inl q ↦ (ts, simp q refl, Within-tail x xs ts w)
  | inr q ↦ let (rest, s, v) = seek-found x xs ts w in (rest, simp q s, v)
]

seek-Within :
    (x : String) (xs ts rest : List String)
    → seek x ts ≡ some rest
    → Within xs rest
    → Within (x ∷ xs) ts
unfolding seek
seek-Within x xs [] rest h w = cc
seek-Within x xs (y ∷ ts) rest h w = elim (Bool-cases (y == x)) [
  | inl q ↦
      take_one (sym ((eq_iff y x).0 q))
        (subst (Within xs) (sym (some_injective ts rest (simp q at h))) w)
  | inr q ↦ pass_one (seek-Within x xs ts rest (simp q at h) w)
]

follow-Within : (xs ts : List String) → follow xs ts ≡ true → Within xs ts
unfolding follow follow_rest
follow-Within [] ts h = done
follow-Within (x ∷ xs) ts h = elim (Option-cases (seek x ts)) [
  | inl e ↦ absurd (ground (arith, e))
  | inr (rest, e) ↦ seek-Within x xs ts rest e (follow-Within xs rest (simp e at h))
]

Within-follow : (xs ts : List String) → Within xs ts → follow xs ts ≡ true
unfolding follow follow_rest
Within-follow [] ts w = refl
Within-follow (x ∷ xs) ts w =
    let (rest, e, v) = seek-found x xs ts w in simp e (Within-follow xs rest v)

pub check_event_sequence_iff :
    (collected : List CollectedEvent) (expected : List String)
    → (check_event_sequence collected expected ≡ true)
      ↔ Within expected (map (λ e. e.kind) collected)
unfolding check_event_sequence
check_event_sequence_iff collected expected = (
  follow-Within expected (map (λ e. e.kind) collected),
  Within-follow expected (map (λ e. e.kind) collected),
)

module _ {F : Type 0} (b : Basics F) where
  check_kind-sequence :
      (a : Assertion) (ctx : AssertionContext F)
      → a.kind ≡ "event_sequence"
      → check_kind b a ctx ≡ check_event_sequence ctx.events a.events
  unfolding check_kind
  check_kind-sequence a ctx k = simp k refl

  -- An assertion on a sequence of events passes, or fails if it is negated, exactly when the sequence
  -- occurs in order among the collected events.
  pub evaluate_assertion_iff :
      (a : Assertion) (ctx : AssertionContext F)
      → a.kind ≡ "event_sequence"
      → (evaluate_assertion b a ctx ≡ not a.negated)
        ↔ Within a.events (map (λ e. e.kind) ctx.events)
  unfolding evaluate_assertion
  evaluate_assertion_iff a ctx k =
      let same = check_kind-sequence a ctx k in
      let (to_within, of_within) = check_event_sequence_iff ctx.events a.events in
      elim (Bool-cases a.negated) [
        | inl n ↦
            (λ h. to_within (ground (arith, n, same, h)), λ w. ground (arith, n, same, of_within w))
        | inr n ↦
            (λ h. to_within (ground (arith, n, same, h)), λ w. ground (arith, n, same, of_within w))
      ]
