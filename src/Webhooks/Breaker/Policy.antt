-- ===== src/Webhooks/Breaker/Policy.antt =====
-- When the breaker is closed, and when it lets a request through.
use sai_aurosy.Prelude.{ℕ, suc, ◌-◌, ◌<◌, ◌≡◌, ◌↔◌, true, false, List, [], ◌∷◌, arith}
use sai_aurosy.Hal.{Time}
use sai_aurosy.Webhooks.Breaker.{
  closed, open_state, half_open, Breaker, new_breaker, allow, record_success, record_failure,
}

-- The calls of the breaker's methods.
pub data Call : Type 0 where
  ask : Time → Call
  success : Call
  failure : Time → Call

unfoldable pub perform : Call → Breaker → Breaker
perform (ask now) b = (allow now b).0
perform success b = record_success b
perform (failure now) b = record_failure now b

unfoldable pub perform_all : List Call → Breaker → Breaker
unfolding perform
perform_all [] b = b
perform_all (call ∷ calls) b = perform_all calls (perform call b)

-- The failures since the last success, on top of `n` earlier ones.
unfoldable pub streak : ℕ → List Call → ℕ
streak n [] = n
streak n (ask now ∷ calls) = streak n calls
streak n (success ∷ calls) = streak 0 calls
streak n (failure now ∷ calls) = streak (suc n) calls

-- The breaker counts `n` failures, and is closed just while they are below the threshold.
record Counts (n : ℕ) (b : Breaker) : Type 0 where
  threshold : b.failure_threshold ≡ 5
  counted : b.failures ≡ n
  closed_below : b.state ≡ closed → n < 5
  below_closed : n < 5 → b.state ≡ closed

Counts-ask : (n : ℕ) (now : Time) (b : Breaker) → Counts n b → Counts n (allow now b).0
unfolding allow
Counts-ask n now b h = ground arith

Counts-success : (n : ℕ) (b : Breaker) → Counts n b → Counts 0 (record_success b)
unfolding record_success
Counts-success n b h = ground arith

Counts-failure :
    (n : ℕ) (now : Time) (b : Breaker) → Counts n b → Counts (suc n) (record_failure now b)
unfolding record_failure
Counts-failure n now b h = ground arith

Counts-perform_all :
    (n : ℕ) (calls : List Call) (b : Breaker)
    → Counts n b
    → Counts (streak n calls) (perform_all calls b)
unfolding perform_all streak
Counts-perform_all n [] b h = h
Counts-perform_all n (ask now ∷ calls) b h = Counts-perform_all n calls _ (Counts-ask n now b h)
Counts-perform_all n (success ∷ calls) b h = Counts-perform_all 0 calls _ (Counts-success n b h)
Counts-perform_all n (failure now ∷ calls) b h =
    Counts-perform_all (suc n) calls _ (Counts-failure n now b h)

-- After any calls on a new breaker, it is closed exactly when fewer than five failures were recorded
-- since the last success.
pub closed_iff :
    (calls : List Call) → ((perform_all calls new_breaker).state ≡ closed) ↔ (streak 0 calls < 5)
closed_iff calls = (h.closed_below, h.below_closed)
  where
    h : Counts (streak 0 calls) (perform_all calls new_breaker)
    h = unfold new_breaker in Counts-perform_all 0 calls new_breaker (ground arith)

-- The breaker refuses a request exactly when it is open and its last failure is less than the open
-- duration ago; it is not changed then. A request that an open breaker lets through half-opens it,
-- and a failure after that opens it again.
pub allow_lem :
    (now : Time) (b : Breaker)
    → (((allow now b).1 ≡ false) ↔ ((b.state ≡ open_state) × (now - b.last_fail < b.open_duration)))
      × ((allow now b).1 ≡ false → (allow now b).0 ≡ b)
      × ((allow now b).1 ≡ true
          → b.state ≡ open_state
          → ((allow now b).0.state ≡ half_open)
            × ((later : Time) → (record_failure later (allow now b).0).state ≡ open_state))
unfolding allow record_failure
allow_lem now b = (
  (λ h. ground arith, λ h. ground arith),
  λ h. ground arith,
  λ h e. (ground arith, λ later. ground arith),
)
