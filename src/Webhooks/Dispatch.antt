-- ===== src/Webhooks/Dispatch.antt =====
-- pkg/control-plane/webhooks/dispatcher.go: the dispatcher and `Dispatch`, which starts a delivery, a
-- goroutine, for each webhook that subscribed to the event. Each started delivery is one job;
-- `send_with_retry` is what it does then. `marshal` stands for encoding/json.
pub mod Started
use sai_aurosy.Prelude.{ℕ, Bool, true, false, Option, none, some, List, [], ◌∷◌, map, String}
use sai_aurosy.Dict.{Dict}
use sai_aurosy.Hal.{Time}
use sai_aurosy.Webhooks.Breaker.{Breaker}
use sai_aurosy.Webhooks.Delivery.{Item, Delivery, send_with_retry, get_circuit_breaker}
use sai_aurosy.Webhooks.Store.{Webhook, Webhooks, list_by_event}

pub record Payload (Data : Type 0) : Type 0 where
  pub event : String
  pub timestamp : Time
  pub data_of : Data

-- `none` is a nil store; of the dead-letter store it matters here whether there is one.
pub record Dispatcher : Type 0 where
  pub store : Option Webhooks
  pub has_dead_letter : Bool
  pub retries : ℕ
  pub circuit_breakers : Dict Breaker

unfoldable pub new_dispatcher_with_dead_letter : Option Webhooks → Bool → Dispatcher
new_dispatcher_with_dead_letter store has_dead_letter = record {
  store = store;
  has_dead_letter = has_dead_letter;
  retries = 3;
  circuit_breakers = [];
}

unfoldable pub new_dispatcher : Option Webhooks → Dispatcher
unfolding new_dispatcher_with_dead_letter
new_dispatcher store = new_dispatcher_with_dead_letter store false

-- A delivery that was started.
pub record Job : Type 0 where
  pub webhook : Webhook
  pub item : Item

abbrev pub job_of : Bool → String → String → Webhook → Job
job_of has_dead_letter event body w = record {
  webhook = w;
  item = record { webhook_id = w.id; event = event; body = body; has_store = has_dead_letter };
}

module _ {Data : Type 0} (marshal : Payload Data → Option String) where
  unfoldable pub start_jobs : Bool → String → List Webhook → Option String → List Job
  start_jobs has_dead_letter event webhooks none = []
  start_jobs has_dead_letter event webhooks (some body) =
      map (job_of has_dead_letter event body) webhooks

  unfoldable pub dispatch_from : Option Webhooks → Time → String → Data → Dispatcher → List Job
  unfolding start_jobs
  dispatch_from none now event data_of d = []
  dispatch_from (some s) now event data_of d =
      start_jobs d.has_dead_letter event (list_by_event event s)
        (marshal (record { event = event; timestamp = now; data_of = data_of }))

  unfoldable pub dispatch : Time → String → Data → Dispatcher → List Job
  unfolding dispatch_from
  dispatch now event data_of d = dispatch_from d.store now event data_of d
