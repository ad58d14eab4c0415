-- ===== src/Webhooks/Store.antt =====
-- pkg/control-plane/webhooks/memorystore.go and store.go: the webhooks in memory, and deadletter.go:
-- the failed deliveries in memory. Each method runs under a mutex. A new UUID and the time are
-- arguments; a copy of a webhook is the webhook.
use sai_aurosy.Prelude.{
  Bool, ◌&&◌, Option, none, some, List, [], ◌∷◌, ◌++◌, String, ◌==◌, contains, is_some,
  if◌then◌else◌,
}
use sai_aurosy.Prelude.Lists.{select}
use sai_aurosy.Dict
use sai_aurosy.Dict.{Dict}
use sai_aurosy.Hal.{Time}

pub record Webhook : Type 0 where
  pub id : String
  pub url : String
  pub events : List String
  pub secret : String
  pub enabled : Bool
  pub created_at : Time
  pub updated_at : Time

abbrev pub Webhooks : Type 0
Webhooks = Dict Webhook

-- The webhook as it is stored, which is also what the caller's pointer holds afterwards.
unfoldable pub stamped : String → Time → Webhook → Webhook
stamped fresh_id now w = record w {
  id = if w.id == "" then fresh_id else w.id;
  created_at = now;
  updated_at = now;
}

unfoldable pub create : String → Time → Webhook → Webhooks → Webhooks × Webhook
unfolding stamped
create fresh_id now w s = let w' = stamped fresh_id now w in (Dict.put s w'.id w', w')

unfoldable pub get_webhook : String → Webhooks → Option Webhook
get_webhook id s = Dict.get s id

unfoldable pub list_webhooks : Webhooks → List Webhook
list_webhooks s = Dict.values s

unfoldable pub list_by_event : String → Webhooks → List Webhook
list_by_event event s = select (λ w. w.enabled && contains w.events event) (Dict.values s)

unfoldable pub update : Time → Webhook → Webhooks → Webhooks
update now w s =
    if is_some (Dict.get s w.id) then Dict.put s w.id (record w { updated_at = now }) else s

unfoldable pub delete : String → Webhooks → Webhooks
delete id s = Dict.remove s id

-- A delivery that failed, with the text of its error.
pub record Failure : Type 0 where
  pub id : String
  pub webhook_id : String
  pub event : String
  pub payload : String
  pub error : String
  pub created_at : Time

unfoldable pub error_text : Option String → String
error_text none = ""
error_text (some e) = e

unfoldable pub record_failed :
    String → Time → String → String → String → Option String → List Failure → List Failure
unfolding error_text
record_failed fresh_id now webhook_id event payload error items =
    items
    ++ record {
      id = fresh_id;
      webhook_id = webhook_id;
      event = event;
      payload = payload;
      error = error_text error;
      created_at = now;
    }
      ∷ []
