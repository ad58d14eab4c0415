-- ===== src/Webhooks/Delivery.antt =====
-- pkg/control-plane/webhooks/dispatcher.go: `sendWithRetry`, the delivery of one event to one webhook,
-- and `getCircuitBreaker`. The HTTP exchange of `send` is a parameter: whether attempt `n` returns an
-- error. The breaker of a URL is shared by all deliveries to it: `clock` and `others` give, for each use of
-- the breaker, the time and what the other deliveries did to it since the last use.
pub mod Reports
pub mod Attempts
use sai_aurosy.Prelude.{
  ℕ, zero, suc, ◌+◌, ◌-◌, ◌*◌, ◌^◌, Bool, true, false, Option, none, some, List, [], ◌∷◌, ◌++◌,
  String, ltb, if◌then◌else◌,
}
use sai_aurosy.Dict
use sai_aurosy.Dict.{Dict}
use sai_aurosy.Hal.{Time}
use sai_aurosy.Webhooks.Breaker.{Breaker, new_breaker, allow, record_success, record_failure}

-- What the dead-letter store is given as the reason.
pub data Reason : Type 0 where
  circuit_open all_failed : Reason

pub record DeadLetter : Type 0 where
  pub webhook_id : String
  pub event : String
  pub body : String
  pub reason : Reason

-- The breaker of the URL, the attempts that were sent, the seconds slept before attempts, and the
-- dead letters.
pub record Delivery : Type 0 where
  pub breaker : Breaker
  pub sent : List ℕ
  pub slept : ℕ
  pub dead : List DeadLetter

-- One event for one webhook; `has_store` is whether the dispatcher has a dead-letter store.
pub record Item : Type 0 where
  pub webhook_id : String
  pub event : String
  pub body : String
  pub has_store : Bool

pub letter_of : Item → Reason → DeadLetter
letter_of item reason = record {
  webhook_id = item.webhook_id;
  event = item.event;
  body = item.body;
  reason = reason;
}

record_dead : Item → Reason → Delivery → Delivery
record_dead item reason d =
    if item.has_store then record d { dead = d.dead ++ letter_of item reason ∷ [] } else d

-- The sleep before a repeated attempt: 2^(attempt - 1) seconds.
back_off : ℕ → Delivery → Delivery
back_off zero d = d
back_off (suc n) d = record d { slept = d.slept + 2 ^ n }

attempt_send : ℕ → Delivery → Delivery
unfolding back_off
attempt_send n d = let d' = back_off n d in record d' { sent = d'.sent ++ n ∷ [] }

module _ (item : Item) (fails : ℕ → Bool) (clock : ℕ → Time) (others : ℕ → Breaker → Breaker) where
  -- The rounds `attempt, ..., attempt + left - 1` of the loop; the flag is whether the event arrived.
  -- Uses `2 * attempt` and
  -- `2 * attempt + 1` of the breaker are the question before the attempt and the record of its end.
  attempts : ℕ → ℕ → Delivery → Delivery × Bool
  unfolding record_dead attempt_send
  attempts zero n d = (record_dead item all_failed d, false)
  attempts (suc left) n d =
      let (b, allowed) = allow (clock (2 * n)) (others (2 * n) d.breaker) in
      let d' = attempt_send n (record d { breaker = b }) in
      let b' = others (2 * n + 1) b in
      let failed =
        attempts left (suc n) (record d' { breaker = record_failure (clock (2 * n + 1)) b' }) in
      if allowed
      then (if fails n then failed else (record d' { breaker = record_success b' }, true))
      else (record_dead item circuit_open (record d { breaker = b }), false)

  -- sendWithRetry: `retries` is 3, and the loop runs while attempt <= retries.
  pub send_with_retry : ℕ → Delivery → Delivery × Bool
  unfolding attempts
  send_with_retry retries d = attempts (suc retries) 0 d

-- The breaker of a URL, made on its first use.
with_breaker : Option Breaker → String → Dict Breaker → Dict Breaker × Breaker
with_breaker none url m = (Dict.put m url new_breaker, new_breaker)
with_breaker (some b) url m = (m, b)

unfoldable pub get_circuit_breaker : String → Dict Breaker → Dict Breaker × Breaker
unfolding with_breaker
get_circuit_breaker url m = with_breaker (Dict.get m url) url m
