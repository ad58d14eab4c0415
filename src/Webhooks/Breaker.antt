-- ===== src/Webhooks/Breaker.antt =====
-- pkg/control-plane/webhooks/circuitbreaker.go. Times are in milliseconds; `now.Sub(c.lastFail)` is
-- never negative, since the clock does not run backwards between the two readings.
pub mod Policy
use sai_aurosy.Prelude.{ℕ, ◌+◌, ◌-◌, Bool, true, false, leb, if◌then◌else◌}
use sai_aurosy.Hal.{Time}

pub data State : Type 0 where
  closed open_state half_open : State

pub record Breaker : Type 0 where
  pub failure_threshold : ℕ
  pub open_duration : ℕ
  pub failures : ℕ
  pub last_fail : Time
  pub state : State

-- NewCircuitBreaker
unfoldable pub new_breaker : Breaker
new_breaker = record {
  failure_threshold = 5;
  open_duration = 60000;
  failures = 0;
  last_fail = 0;
  state = closed;
}

allow_in : State → Time → Breaker → Breaker × Bool
allow_in closed now b = (b, true)
allow_in open_state now b =
    if leb b.open_duration (now - b.last_fail)
    then (record b { state = half_open }, true)
    else (b, false)
allow_in half_open now b = (b, true)

unfoldable pub allow : Time → Breaker → Breaker × Bool
unfolding allow_in
allow now b = allow_in b.state now b

unfoldable pub record_success : Breaker → Breaker
record_success b = record b { failures = 0; state = closed }

after_failure : State → Breaker → Breaker
after_failure half_open b = record b { state = open_state }
after_failure closed b =
    if leb b.failure_threshold b.failures then record b { state = open_state } else b
after_failure open_state b =
    if leb b.failure_threshold b.failures then record b { state = open_state } else b

unfoldable pub record_failure : Time → Breaker → Breaker
unfolding after_failure
record_failure now b =
    after_failure b.state (record b { failures = b.failures + 1; last_fail = now })
