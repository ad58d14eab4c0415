-- ===== src/Webhooks/Examples.antt =====
-- The circuit breaker after the calls of circuitbreaker_test.go, and a delivery.
use sai_aurosy.Prelude.{ℕ, zero, suc, ◌≡◌, refl, ◌↔◌, ◌<◌, Bool, true, false, List, [], ◌∷◌}
use sai_aurosy.Hal.{Time}
use sai_aurosy.Webhooks.Breaker.{Breaker, closed, open_state, new_breaker, allow, record_failure}
use sai_aurosy.Webhooks.Breaker.Policy.{Call, failure, perform_all, streak, closed_iff}
use sai_aurosy.Webhooks.Delivery.{Item, Delivery}
use sai_aurosy.Prelude.{Option, some, String, Memᴰ}
use sai_aurosy.Prelude.Lists.{select}
use sai_aurosy.Dict
use sai_aurosy.Webhooks.Store.{Webhook, Webhooks, create, stamped, list_by_event}
use sai_aurosy.Webhooks.Dispatch.{
  Payload, Dispatcher, job_of, new_dispatcher_with_dead_letter, dispatch, dispatch_from, start_jobs,
}
use sai_aurosy.Webhooks.Dispatch.Started.{Starts, dispatch_iff}

abbrev outage : List Call
outage = failure 1 ∷ failure 2 ∷ failure 3 ∷ failure 4 ∷ failure 5 ∷ []

closed_iff_example : ((perform_all outage new_breaker).state ≡ closed) ↔ (streak 0 outage < 5)
closed_iff_example = closed_iff outage

opened : (perform_all outage new_breaker).state ≡ open_state
unfolding perform_all allow record_failure new_breaker
opened = refl

abbrev notice : Item
notice = record { webhook_id = "w1"; event = "task_completed"; body = "{}"; has_store = true }

abbrev idle_delivery : Delivery
idle_delivery = record { breaker = new_breaker; sent = []; slept = 0; dead = [] }

-- The first two attempts fail.
abbrev fails_twice : ℕ → Bool
fails_twice zero = true
fails_twice (suc zero) = true
fails_twice (suc (suc n)) = false

abbrev second_by_second : ℕ → Time
second_by_second n = 1000

abbrev undisturbed : ℕ → Breaker → Breaker
undisturbed n b = b

abbrev listener : Webhook
listener = record {
  id = "";
  url = "https://example.org/hook";
  events = "task_started" ∷ "task_completed" ∷ [];
  secret = "";
  enabled = true;
  created_at = 0;
  updated_at = 0;
}

abbrev stored_listener : Webhook
stored_listener = record listener { id = "w1"; created_at = 7; updated_at = 7 }

abbrev hooks : Webhooks
hooks = (create "w1" 7 listener []).0

abbrev dispatcher : Dispatcher
dispatcher = new_dispatcher_with_dead_letter (some hooks) true

abbrev always_empty : Payload String → Option String
always_empty p = some "{}"

dispatched :
    dispatch always_empty 9 "task_completed" "" dispatcher
    ≡ job_of true "task_completed" "{}" stored_listener ∷ []
unfolding dispatch dispatch_from start_jobs new_dispatcher_with_dead_letter list_by_event create
    stamped Dict.put Dict.values select
dispatched = refl

dispatch_iff_example :
    Memᴰ
      (job_of true "task_completed" "{}" stored_listener)
      (dispatch always_empty 9 "task_completed" "" dispatcher)
    ↔ Starts always_empty 9 "task_completed" "" dispatcher
        (job_of true "task_completed" "{}" stored_listener)
dispatch_iff_example =
    dispatch_iff always_empty 9 "task_completed" "" dispatcher
      (job_of true "task_completed" "{}" stored_listener)
