-- ===== src/Conversations/Catalog.antt =====
-- pkg/control-plane/conversations/catalog.go: the catalog over a store, and the filling of a template.
use sai_aurosy.Prelude.{Option, none, some, List, [], ◌∷◌, String, ◌==◌, if◌then◌else◌}
use sai_aurosy.Conversations.{Conversation, MemoryStore, Error, not_found, list_all, get_stored}
use sai_aurosy.Conversations

-- The catalog; `none` is a catalog without a store. Its answer to a lookup is an error or what the
-- store found.
pub record Catalog : Type 0 where
  pub store : Option MemoryStore

pub data Answer : Type 0 where
  failed : Error → Answer
  answered : Option Conversation → Answer

unfoldable pub ask : (MemoryStore → Option Conversation) → Option MemoryStore → Answer
ask look none = failed not_found
ask look (some s) = answered (look s)

unfoldable pub get_for_tenant : String → String → Catalog → Answer
unfolding ask
get_for_tenant id tenant_id c = ask (get_stored id) c.store

unfoldable pub get_by_intent : String → String → Catalog → Answer
unfolding ask
get_by_intent intent tenant_id c = ask (Conversations.get_by_intent intent tenant_id) c.store

unfoldable pub listed : Option MemoryStore → List Conversation
listed none = []
listed (some s) = list_all s

unfoldable pub list_for_tenant : String → Catalog → List Conversation
unfolding listed
list_for_tenant tenant_id c = listed c.store

unfoldable pub change_store :
    (MemoryStore → MemoryStore × Option Error) → Option MemoryStore → Catalog × Option Error
change_store change none = (record { store = none }, some not_found)
change_store change (some s) = let (s', e) = change s in (record { store = some s' }, e)

unfoldable pub create : Conversation → Catalog → Catalog × Option Error
unfolding change_store
create conv c = change_store (Conversations.create conv) c.store

unfoldable pub update : Conversation → Catalog → Catalog × Option Error
unfolding change_store
update conv c = change_store (Conversations.update conv) c.store

unfoldable pub delete : String → Catalog → Catalog × Option Error
unfolding change_store
delete id c = change_store (Conversations.delete id) c.store

-- ResolveResponse; the parameters are printed already and come in the order of the range over the
-- map. `replace_all` is strings.ReplaceAll.
module _ (replace_all : String → String → String → String) (concat : String → String → String) where
  unfoldable pub replace_params : List (String × String) → String → String
  replace_params [] text = text
  replace_params ((k, v) ∷ params) text =
      replace_params params (replace_all text (concat "{{" (concat k "}}")) v)

  unfoldable pub resolve_response : String → List (String × String) → String
  unfolding replace_params
  resolve_response template params = if template == "" then "" else replace_params params template
