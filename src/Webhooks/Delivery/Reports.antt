-- ===== src/Webhooks/Delivery/Reports.antt =====
-- What can be said of a delivery by sendWithRetry of pkg/control-plane/webhooks/dispatcher.go.
use mathlib.Core.List.{append_assoc}
use sai_aurosy.Prelude.{
  ℕ, zero, suc, ◌+◌, ◌^◌, ◌-◌, ◌*◌, ◌≤◌, ◌<◌, ◌≡◌, refl, ap, subst, ◌∙◌, Bool, true, false, List,
  [], ◌∷◌, ◌++◌, arith, if◌then◌else◌,
}
use sai_aurosy.Hal.{Time}
use sai_aurosy.Webhooks.Breaker.{Breaker, open_state, closed, allow, record_failure}
use sai_aurosy.Webhooks.Delivery.{Item, letter_of, Reason, circuit_open, all_failed, Delivery}

-- The numbers n, n + 1, ..., n + k - 1.
unfoldable pub count_up : ℕ → ℕ → List ℕ
count_up n zero = []
count_up n (suc k) = n ∷ count_up (suc n) k

-- The seconds slept before attempt n, and before the attempts n, ..., n + k - 1: none before the first
-- attempt of all, then 1, 2, 4, ...
abbrev pub pause : ℕ → ℕ
pause zero = 0
pause (suc n) = 2 ^ n

abbrev pub pauses : ℕ → ℕ → ℕ
pauses n zero = 0
pauses n (suc k) = pause n + pauses (suc n) k

-- A breaker that stands open at a time: its last failure is less than the open duration ago.
pub record IsBlocked (now : Time) (b : Breaker) : Type 0 where
  pub is_open : b.state ≡ open_state
  pub recent : now - b.last_fail < b.open_duration

module _ (item : Item) (fails : ℕ → Bool) (clock : ℕ → Time) (others : ℕ → Breaker → Breaker) where
  -- The breaker after a question and a failed attempt `n`, with what others do in between.
  abbrev pub after_failed : ℕ → Breaker → Breaker
  after_failed n b =
      record_failure (clock (2 * n + 1))
        (others (2 * n + 1) (allow (clock (2 * n)) (others (2 * n) b)).0)

  -- The breaker that is asked before attempt `n + k` when the `k` attempts before it failed.
  abbrev pub asked_at : ℕ → ℕ → Breaker → Breaker
  asked_at n zero b = others (2 * n) b
  asked_at n (suc k) b = asked_at (suc n) k (after_failed n b)

  abbrev pub IsBlockedAt : ℕ → ℕ → Breaker → Type 0
  IsBlockedAt n k b = IsBlocked (clock (2 * (n + k))) (asked_at n k b)

  -- `failed` attempts failed before attempt `n + failed` succeeded, each at a breaker that was not
  -- blocked and after its pause; the breaker is closed with no failures, and the dead letters are as before.
  pub record Arrived (n left : ℕ) (d d' : Delivery) : Type 0 where
    pub failed : ℕ
    pub in_time : failed < left
    pub tried : d'.sent ≡ d.sent ++ count_up n (suc failed)
    pub slept : d'.slept ≡ d.slept + pauses n (suc failed)
    pub reset : (d'.breaker.state ≡ closed) × (d'.breaker.failures ≡ 0)
    pub failures : (i : ℕ) → i < failed → fails (n + i) ≡ true
    pub success : fails (n + failed) ≡ false
    pub let_through : (i : ℕ) → i ≤ failed → ¬ IsBlockedAt n i d.breaker
    pub no_letter : d'.dead ≡ d.dead

  -- Why a delivery ended after `failed` failed attempts of `left`.
  pub data Because (n left failed : ℕ) (b : Breaker) : Reason → Type 0 where
    blocked : failed < left → IsBlockedAt n failed b → Because n left failed b circuit_open
    exhausted : failed ≡ left → Because n left failed b all_failed

  -- `failed` attempts were made, each at a breaker that was not blocked, and failed; they were all, or the
  -- breaker was blocked then; the dead-letter store got one letter, with the reason.
  pub record Lost (n left : ℕ) (d d' : Delivery) : Type 0 where
    pub failed : ℕ
    pub tried : d'.sent ≡ d.sent ++ count_up n failed
    pub slept : d'.slept ≡ d.slept + pauses n failed
    pub failures : (i : ℕ) → i < failed → fails (n + i) ≡ true
    pub let_through : (i : ℕ) → i < failed → ¬ IsBlockedAt n i d.breaker
    pub reason : Reason
    pub because : Because n left failed d.breaker reason
    pub letter : d'.dead ≡ (if item.has_store then d.dead ++ letter_of item reason ∷ [] else d.dead)

  abbrev pub Report : ℕ → ℕ → Delivery → Delivery → Bool → Type 0
  Report n left d d' true = Arrived n left d d'
  Report n left d d' false = Lost n left d d'

  pub through-suc :
      (n k : ℕ) (b : Breaker)
      → ¬ IsBlocked (clock (2 * n)) (others (2 * n) b)
      → ((i : ℕ) → i < k → ¬ IsBlockedAt (suc n) i (after_failed n b))
      → (i : ℕ) → i < suc k
      → ¬ IsBlockedAt n i b
  through-suc n k b now later zero l =
      subst (λ m. ¬ IsBlocked (clock (2 * m)) (others (2 * n) b)) (omega arith) now
  through-suc n k b now later (suc i) l =
      subst (λ m. ¬ IsBlocked (clock (2 * m)) (asked_at (suc n) i (after_failed n b))) (omega arith)
        (later i (omega arith))

  pub Because-suc :
      (n left k : ℕ) (b : Breaker) (reason : Reason)
      → Because (suc n) left k (after_failed n b) reason
      → Because n (suc left) (suc k) b reason
  Because-suc n left k b circuit_open (blocked l h) = blocked (omega arith) (
      subst (λ m. IsBlocked (clock (2 * m)) (asked_at (suc n) k (after_failed n b))) (omega arith)
        h)
  Because-suc n left k b all_failed (exhausted e) = exhausted (ap suc e)

  pub failures-suc :
      (n k : ℕ)
      → fails n ≡ true
      → ((i : ℕ) → i < k → fails (suc n + i) ≡ true)
      → (i : ℕ) → i < suc k
      → fails (n + i) ≡ true
  failures-suc n k e h zero l = subst (λ m. fails m ≡ true) (omega arith) e
  failures-suc n k e h (suc i) l = subst (λ m. fails m ≡ true) (omega arith) (h i (omega arith))

  -- A failed attempt before a report.
  pub one_more :
      (n left : ℕ) (d d' : Delivery) (r : Delivery × Bool)
      → fails n ≡ true
      → ¬ IsBlocked (clock (2 * n)) (others (2 * n) d.breaker)
      → d'.breaker ≡ after_failed n d.breaker
      → d'.sent ≡ d.sent ++ n ∷ []
      → d'.slept ≡ d.slept + pause n
      → d'.dead ≡ d.dead
      → Report (suc n) left d' r.0 r.1
      → Report n (suc left) d r.0 r.1
  unfolding count_up
  one_more n left d d' (x, true) e u b s z k h = record {
    failed = suc h.failed;
    in_time = omega (arith, h.in_time);
    tried = h.tried ∙ rw s (append_assoc d.sent (n ∷ []) (count_up (suc n) (suc h.failed)));
    slept = omega (arith, h.slept, z);
    reset = h.reset;
    failures = failures-suc n h.failed e h.failures;
    success = subst (λ m. fails m ≡ false) (omega arith) h.success;
    let_through = λ i l.
        through-suc n (suc h.failed) d.breaker u
          (λ i l. subst (λ q. ¬ IsBlockedAt (suc n) i q) b (h.let_through i (omega arith))) i
          (omega arith);
    no_letter = h.no_letter ∙ k;
  }
  one_more n left d d' (x, false) e u b s z k h = record {
    failed = suc h.failed;
    tried = h.tried ∙ rw s (append_assoc d.sent (n ∷ []) (count_up (suc n) h.failed));
    slept = omega (arith, h.slept, z);
    failures = failures-suc n h.failed e h.failures;
    let_through =
        through-suc n h.failed d.breaker u
          (λ i l. subst (λ q. ¬ IsBlockedAt (suc n) i q) b (h.let_through i l));
    reason = h.reason;
    because =
        Because-suc n left h.failed d.breaker h.reason
          (subst (λ q. Because (suc n) left h.failed q h.reason) b h.because);
    letter = h.letter ∙ rw k refl;
  }
