-- ===== src/Scenarios.antt =====
-- pkg/control-plane/scenarios: the store of scenarios in memory (memorystore.go) and the catalog over
-- it with its defaults (catalog.go). The store's methods run under the mutex. A tenant's identifier
-- is passed to the store in memory, which has none. `cmd_vel_payload` stands for the JSON of
-- a velocity in tenths.
pub mod Lookup
mod Examples
use sai_aurosy.Prelude.{
  Bool, true, false, not, Option, none, some, List, [], ◌∷◌, ◌++◌, map, String, ◌==◌, contains,
  is_some, if◌then◌else◌,
}
use sai_aurosy.Prelude.Lists.{select}
use sai_aurosy.Prelude.Int.{ℤ, pos, negsuc}
use sai_aurosy.Dict
use sai_aurosy.Dict.{Dict}
use sai_aurosy.Tasks.Types.{ScenarioStep, Scenario}

pub data Error : Type 0 where
  already_exists not_found : Error

abbrev pub Scenarios : Type 0
Scenarios = Dict Scenario

abbrev pub step : String → String → ℤ → ScenarioStep
step command payload duration_sec = record {
  command = command;
  payload = payload;
  duration_sec = duration_sec;
}

module _ (cmd_vel_payload : ℤ → String) where
  abbrev pub standby : Scenario
  standby = record {
    id = "standby";
    name = "Ожидание";
    description = "Стоячая поза";
    required_capabilities = "stand" ∷ [];
    steps = step "stand_mode" "" (pos 0) ∷ [];
  }

  abbrev pub patrol : Scenario
  patrol = record {
    id = "patrol";
    name = "Патруль";
    description = "walk_mode + cmd_vel N сек";
    required_capabilities = "walk" ∷ "cmd_vel" ∷ "patrol" ∷ [];
    steps =
        step "walk_mode" "" (pos 0)
        ∷ step "cmd_vel" (cmd_vel_payload (pos 3)) (negsuc 0)
        ∷ step "cmd_vel" (cmd_vel_payload (pos 0)) (pos 0)
        ∷ [];
  }

  abbrev pub navigation : Scenario
  navigation = record {
    id = "navigation";
    name = "Навигация";
    description = "walk_mode + движение по параметрам";
    required_capabilities = "walk" ∷ "cmd_vel" ∷ "navigation" ∷ [];
    steps = step "walk_mode" "" (pos 0) ∷ step "cmd_vel" "" (negsuc 0) ∷ [];
  }

  abbrev pub mall_assistant : Scenario
  mall_assistant = record {
    id = "mall_assistant";
    name = "Mall Assistant & Guide";
    description = "Interactive assistant in a shopping mall";
    required_capabilities = "walk" ∷ "stand" ∷ "navigation" ∷ "speech" ∷ [];
    steps = [];
  }

  abbrev pub navigate_to_store : Scenario
  navigate_to_store = record {
    id = "navigate_to_store";
    name = "Navigate to Store";
    description = "Navigate to store coordinates";
    required_capabilities = "walk" ∷ "navigation" ∷ [];
    steps = step "walk_mode" "" (pos 0) ∷ step "navigate_to" "" (negsuc 0) ∷ [];
  }

  -- NewMemoryStore
  unfoldable pub new_memory_store : Scenarios
  new_memory_store = ("standby", standby) ∷ ("patrol", patrol) ∷ ("navigation", navigation) ∷ []

  -- registerDefaults
  unfoldable pub register_defaults : Scenarios
  register_defaults =
      ("standby", standby)
      ∷ ("patrol", patrol)
      ∷ ("navigation", navigation)
      ∷ ("mall_assistant", mall_assistant)
      ∷ ("navigate_to_store", navigate_to_store)
      ∷ []

unfoldable pub list_stored : Scenarios → List Scenario
list_stored s = Dict.values s

unfoldable pub get_stored : String → Scenarios → Option Scenario
get_stored id s = Dict.get s id

unfoldable pub insert_new : Option Scenario → Scenario → Scenarios → Scenarios × Option Error
insert_new (some old) sc s = (s, some already_exists)
insert_new none sc s = (Dict.put s sc.id sc, none)

unfoldable pub create_stored : Scenario → Scenarios → Scenarios × Option Error
unfolding insert_new
create_stored sc s = insert_new (Dict.get s sc.id) sc s

unfoldable pub replace_old : Option Scenario → Scenario → Scenarios → Scenarios × Option Error
replace_old none sc s = (s, some not_found)
replace_old (some old) sc s = (Dict.put s sc.id sc, none)

unfoldable pub update_stored : Scenario → Scenarios → Scenarios × Option Error
unfolding replace_old
update_stored sc s = replace_old (Dict.get s sc.id) sc s

unfoldable pub remove_old : Option Scenario → String → Scenarios → Scenarios × Option Error
remove_old none id s = (s, some not_found)
remove_old (some old) id s = (Dict.remove s id, none)

unfoldable pub delete_stored : String → Scenarios → Scenarios × Option Error
unfolding remove_old
delete_stored id s = remove_old (Dict.get s id) id s

-- The catalog; `none` for the store is a catalog without persistence.
pub record Catalog : Type 0 where
  pub store : Option Scenarios
  pub scenarios : Scenarios

unfoldable pub new_catalog : (ℤ → String) → Catalog
unfolding register_defaults
new_catalog cmd_vel_payload = record { store = none; scenarios = register_defaults cmd_vel_payload }

unfoldable pub new_catalog_with_store : (ℤ → String) → Scenarios → Catalog
unfolding register_defaults
new_catalog_with_store cmd_vel_payload s = record {
  store = some s;
  scenarios = register_defaults cmd_vel_payload;
}

unfoldable pub from_store : Option Scenarios → String → Option Scenario
from_store none id = none
from_store (some s) id = get_stored id s

unfoldable pub or_default : Option Scenario → Option Scenario → Option Scenario
or_default none o = o
or_default (some sc) o = some sc

unfoldable pub get_for_tenant : String → String → Catalog → Option Scenario
unfolding from_store or_default
get_for_tenant id tenant_id c = or_default (from_store c.store id) (Dict.get c.scenarios id)

unfoldable pub get_scenario : String → Catalog → Option Scenario
unfolding get_for_tenant
get_scenario id c = get_for_tenant id "" c

unfoldable pub stored_list : Option Scenarios → List Scenario
stored_list none = []
stored_list (some s) = list_stored s

unfoldable pub list_for_tenant : String → Catalog → List Scenario
unfolding stored_list
list_for_tenant tenant_id c =
    let stored = stored_list c.store in
    stored ++ select (λ sc. not (contains (map (λ s. s.id) stored) sc.id)) (Dict.values c.scenarios)

-- A change goes to the store; without one it is an error.
unfoldable pub with_store :
    Option Scenarios → (Scenarios → Scenarios × Option Error) → Catalog → Catalog × Option Error
with_store none change c = (c, some not_found)
with_store (some s) change c = let (s', e) = change s in (record c { store = some s' }, e)

unfoldable pub create_scenario : Scenario → Catalog → Catalog × Option Error
unfolding with_store
create_scenario sc c = with_store c.store (create_stored sc) c

unfoldable pub update_scenario : Scenario → Catalog → Catalog × Option Error
unfolding with_store
update_scenario sc c = with_store c.store (update_stored sc) c

unfoldable pub delete_scenario : String → Catalog → Catalog × Option Error
unfolding with_store
delete_scenario id c = with_store c.store (delete_stored id) c
