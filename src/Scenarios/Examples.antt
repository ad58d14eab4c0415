-- ===== src/Scenarios/Examples.antt =====
-- A scenario of a site, over a fresh store.
use sai_aurosy.Prelude.{◌≡◌, refl, none, some, [], ◌∷◌, String}
use sai_aurosy.Prelude.Int.{ℤ, pos}
use sai_aurosy.Dict
use sai_aurosy.Tasks.Types.{Scenario}
use sai_aurosy.Scenarios.{
  Catalog, new_memory_store, new_catalog_with_store, create_scenario, delete_scenario, get_scenario,
  get_for_tenant, create_stored, insert_new, with_store, step, mall_assistant, from_store,
  or_default, get_stored,
}
use sai_aurosy.Scenarios.Lookup.{delete_scenario-create_scenario}

abbrev no_payload : ℤ → String
no_payload v = ""

abbrev catalog : Catalog
catalog = new_catalog_with_store no_payload (new_memory_store no_payload)

abbrev night_round : Scenario
night_round = record {
  id = "night_round";
  name = "Night round";
  description = "";
  required_capabilities = "walk" ∷ [];
  steps = step "walk_mode" "" (pos 0) ∷ [];
}

created : (create_scenario night_round catalog).1 ≡ none
unfolding create_scenario create_stored insert_new with_store new_catalog_with_store
    new_memory_store Dict.get
created = refl

-- A scenario that the store lacks comes from the defaults.
falls_back : get_scenario "mall_assistant" catalog ≡ some (mall_assistant no_payload)
unfolding get_scenario get_for_tenant from_store or_default get_stored new_catalog_with_store
    new_memory_store Dict.get
falls_back = refl

delete_scenario-create_scenario_example :
    (get_scenario "night_round" (create_scenario night_round catalog).0 ≡ some night_round)
    × ((delete_scenario "night_round" (create_scenario night_round catalog).0).1 ≡ none)
    × ((id tenant_id : String)
        → get_for_tenant id tenant_id
            (delete_scenario "night_round" (create_scenario night_round catalog).0).0
          ≡ get_for_tenant id tenant_id catalog)
delete_scenario-create_scenario_example =
    delete_scenario-create_scenario night_round catalog created
