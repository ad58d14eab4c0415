-- ===== src/Conversations/Examples.antt =====
-- A tenant that has an answer of its own to the intent find_store.
use sai_aurosy.Prelude.{◌≡◌, refl, none, some, [], ◌∷◌, String}
use sai_aurosy.Dict
use sai_aurosy.Conversations.{
  Conversation, MemoryStore, new_memory_store, create, create_new, store_conversation,
  get_by_intent, scan, is_own, shared_match,
}
use sai_aurosy.Conversations.Choice.{Chosen, get_by_intent-Chosen}

abbrev conversation : String → String → Conversation
conversation id tenant_id = record {
  id = id;
  intent = "find_store";
  name = id;
  description = "";
  response_template = "{{brand}} is on the {{floor}} floor";
  response_provider_url = "";
  supported_languages = "en" ∷ "uz" ∷ [];
  tenant_id = tenant_id;
}

abbrev store : MemoryStore
store =
    (create (conversation "own" "mall") (create (conversation "shared" "") new_memory_store).0).0

own_first : get_by_intent "find_store" "mall" store ≡ some (conversation "own" "mall")
unfolding get_by_intent scan is_own shared_match create create_new store_conversation
    new_memory_store Dict.get Dict.put Dict.values
own_first = refl

shared_else : get_by_intent "find_store" "airport" store ≡ some (conversation "shared" "")
unfolding get_by_intent scan is_own shared_match create create_new store_conversation
    new_memory_store Dict.get Dict.put Dict.values
shared_else = refl

get_by_intent-Chosen_example :
    Chosen "find_store" "mall"
      (Dict.values store.by_id)
      none
      (get_by_intent "find_store" "mall" store)
get_by_intent-Chosen_example = get_by_intent-Chosen "find_store" "mall" store
