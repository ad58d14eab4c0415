-- ===== src/Scenarios/Lookup.antt =====
-- Create, Get and Delete of pkg/control-plane/scenarios/catalog.go over the store in memory.
use sai_aurosy.Prelude.{
  ◌≡◌, ◌≢◌, refl, ap, ◌∙◌, inl, inr, none, some, String, arith, Option-cases, eq_iff,
}
use sai_aurosy.Dict
use sai_aurosy.Dict.{Dict}
use sai_aurosy.Dict.Laws
use sai_aurosy.Tasks.Types.{Scenario}
use sai_aurosy.Scenarios.{
  Catalog, Scenarios, Error, already_exists, not_found, get_stored, create_stored, delete_stored,
  insert_new, remove_old, with_store, from_store, or_default, get_for_tenant, get_scenario,
  create_scenario, delete_scenario,
}

some_is_not_none : (e : Error) → some e ≢ none
some_is_not_none e h = cc

-- What a successful creation leaves in the store.
create_scenario-stored :
    (sc : Scenario) (c : Catalog)
    → (create_scenario sc c).1 ≡ none
    → (s : Scenarios) × (c.store ≡ some s)
      × (Dict.get s sc.id ≡ none)
      × ((create_scenario sc c).0 ≡ record c { store = some (Dict.put s sc.id sc) })
unfolding create_scenario create_stored with_store insert_new
create_scenario-stored sc c h = elim (Option-cases c.store) [
  | inl e ↦ absurd (some_is_not_none not_found (simp e at h))
  | inr (s, e) ↦ elim (Option-cases (Dict.get s sc.id)) [
    | inl g ↦ (s, e, g, simp (e, g) refl)
    | inr (old, g) ↦ absurd (some_is_not_none already_exists (simp (e, g) at h))
  ]
]

-- The store after a scenario was put in and taken out answers as before.
get-remove-put :
    (sc : Scenario) (s : Scenarios) (k : String)
    → Dict.get s sc.id ≡ none
    → Dict.get (Dict.remove (Dict.put s sc.id sc) sc.id) k ≡ Dict.get s k
get-remove-put sc s k g = ground (
  arith,
  Laws.get-remove (Dict.put s sc.id sc) sc.id k,
  Laws.get-put s sc.id k sc,
  eq_iff sc.id k,
  g,
)

get-put_self : (sc : Scenario) (s : Scenarios) → Dict.get (Dict.put s sc.id sc) sc.id ≡ some sc
get-put_self sc s = ground (arith, Laws.get-put s sc.id sc.id sc, eq_iff sc.id sc.id)

module _ (sc : Scenario) (c : Catalog) (s : Scenarios) where
  get_scenario-put : get_scenario sc.id (record c { store = some (Dict.put s sc.id sc) }) ≡ some sc
  unfolding get_scenario get_for_tenant from_store or_default get_stored
  get_scenario-put = simp (get-put_self sc s) refl

  delete_scenario-put :
      delete_scenario sc.id (record c { store = some (Dict.put s sc.id sc) })
      ≡ (record c { store = some (Dict.remove (Dict.put s sc.id sc) sc.id) }, none)
  unfolding delete_scenario delete_stored with_store remove_old
  delete_scenario-put = simp (get-put_self sc s) refl

  get_for_tenant-remove-put :
      (id tenant_id : String)
      → c.store ≡ some s
      → Dict.get s sc.id ≡ none
      → get_for_tenant id tenant_id
          (record c { store = some (Dict.remove (Dict.put s sc.id sc) sc.id) })
        ≡ get_for_tenant id tenant_id c
  unfolding get_for_tenant from_store get_stored
  get_for_tenant-remove-put id tenant_id e g = simp (e, get-remove-put sc s id g) refl

-- After a scenario was created without an error the catalog answers with it, and deleting it then
-- gives no error and brings back every earlier answer, for every tenant.
pub delete_scenario-create_scenario :
    (sc : Scenario) (c : Catalog)
    → (create_scenario sc c).1 ≡ none
    → (get_scenario sc.id (create_scenario sc c).0 ≡ some sc)
      × ((delete_scenario sc.id (create_scenario sc c).0).1 ≡ none)
      × ((id tenant_id : String)
          → get_for_tenant id tenant_id (delete_scenario sc.id (create_scenario sc c).0).0
            ≡ get_for_tenant id tenant_id c)
delete_scenario-create_scenario sc c h =
    let (s, e, g, made) = create_scenario-stored sc c h in
    (
      ap (get_scenario sc.id) made ∙ get_scenario-put sc c s,
      ap (λ d. (delete_scenario sc.id d).1) made ∙ ap (λ r. r.1) (delete_scenario-put sc c s),
      λ id tenant_id.
          ap (λ d. get_for_tenant id tenant_id (delete_scenario sc.id d).0) made
          ∙ ap (λ r. get_for_tenant id tenant_id r.0) (delete_scenario-put sc c s)
          ∙ get_for_tenant-remove-put sc c s id tenant_id e g,
    )
