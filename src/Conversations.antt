-- ===== src/Conversations.antt =====
-- pkg/control-plane/conversations: the answers to intents, their store in memory (memorystore.go).
-- The store's methods run under the mutex. Go leaves the order of a
-- map open: the scan of `GetByIntent` takes the entries in the order of the list.
pub mod Catalog
pub mod Choice
mod Examples
use sai_aurosy.Prelude.{
  Bool, true, false, not, ◌&&◌, Option, none, some, List, [], ◌∷◌, map, String, ◌==◌, if◌then◌else◌,
}
use sai_aurosy.Dict
use sai_aurosy.Dict.{Dict}

pub record Conversation : Type 0 where
  pub id : String
  pub intent : String
  pub name : String
  pub description : String
  pub response_template : String
  pub response_provider_url : String
  pub supported_languages : List String
  pub tenant_id : String

-- `by_intent` leads from an intent to the conversation that was stored last for it.
pub record MemoryStore : Type 0 where
  pub by_id : Dict Conversation
  pub by_intent : Dict String

pub data Error : Type 0 where
  already_exists not_found : Error

unfoldable pub new_memory_store : MemoryStore
new_memory_store = record { by_id = []; by_intent = [] }

unfoldable pub list_all : MemoryStore → List Conversation
list_all s = Dict.values s.by_id

unfoldable pub get_stored : String → MemoryStore → Option Conversation
get_stored id s = Dict.get s.by_id id

-- One conversation of the scan: it is the tenant's own match, which ends the loop.
unfoldable pub is_own : String → String → Conversation → Bool
is_own intent tenant_id c =
    c.intent == intent && (c.tenant_id == tenant_id && not (tenant_id == ""))

unfoldable pub shared_match : String → Conversation → Option Conversation → Option Conversation
shared_match intent c before = if c.intent == intent && c.tenant_id == "" then some c else before

unfoldable pub scan :
    String → String → List Conversation → Option Conversation → Option Conversation
unfolding is_own shared_match
scan intent tenant_id [] before = before
scan intent tenant_id (c ∷ cs) before =
    let rest = scan intent tenant_id cs (shared_match intent c before) in
    if is_own intent tenant_id c then some c else rest

unfoldable pub get_by_intent : String → String → MemoryStore → Option Conversation
unfolding scan
get_by_intent intent tenant_id s = scan intent tenant_id (Dict.values s.by_id) none

unfoldable pub store_conversation : Conversation → Dict String → MemoryStore → MemoryStore
store_conversation c index s = record {
  by_id = Dict.put s.by_id c.id c;
  by_intent = Dict.put index c.intent c.id;
}

unfoldable pub create_new :
    Option Conversation → Conversation → MemoryStore → MemoryStore × Option Error
unfolding store_conversation
create_new (some old) c s = (s, some already_exists)
create_new none c s = (store_conversation c s.by_intent s, none)

unfoldable pub create : Conversation → MemoryStore → MemoryStore × Option Error
unfolding create_new
create c s = create_new (Dict.get s.by_id c.id) c s

unfoldable pub update_found :
    Option Conversation → Conversation → MemoryStore → MemoryStore × Option Error
unfolding store_conversation
update_found none c s = (s, some not_found)
update_found (some old) c s =
    let index =
      if old.intent == c.intent then s.by_intent else Dict.remove s.by_intent old.intent in
    (store_conversation c index s, none)

unfoldable pub update : Conversation → MemoryStore → MemoryStore × Option Error
unfolding update_found
update c s = update_found (Dict.get s.by_id c.id) c s

unfoldable pub delete_found :
    Option Conversation → String → MemoryStore → MemoryStore × Option Error
delete_found none id s = (s, some not_found)
delete_found (some c) id s =
    (record { by_id = Dict.remove s.by_id id; by_intent = Dict.remove s.by_intent c.intent }, none)

unfoldable pub delete : String → MemoryStore → MemoryStore × Option Error
unfolding delete_found
delete id s = delete_found (Dict.get s.by_id id) id s
