-- ===== src/Tenants.antt =====
-- pkg/control-plane/tenants: the tenants (types.go) and their store in memory (memorystore.go). Its
-- methods run under the mutex; `Bool` tells whether a method succeeded.
use sai_aurosy.Prelude.{Bool, true, false, Option, none, some, List, [], ◌∷◌, String}
use sai_aurosy.Dict
use sai_aurosy.Dict.{Dict}

pub record Tenant : Type 0 where
  pub id : String
  pub name : String
  pub config : String

abbrev pub Tenants : Type 0
Tenants = Dict Tenant

abbrev pub new_tenants : Tenants
new_tenants = ("default", record { id = "default"; name = "Default"; config = "" }) ∷ []

unfoldable pub list_tenants : Tenants → List Tenant
list_tenants s = Dict.values s

unfoldable pub get_tenant : String → Tenants → Option Tenant
get_tenant id s = Dict.get s id

unfoldable pub insert_absent : Option Tenant → Tenant → Tenants → Tenants × Bool
insert_absent (some old) t s = (s, false)
insert_absent none t s = (Dict.put s t.id t, true)

unfoldable pub create_tenant : Tenant → Tenants → Tenants × Bool
unfolding insert_absent
create_tenant t s = insert_absent (Dict.get s t.id) t s

unfoldable pub replace_found : Option Tenant → Tenant → Tenants → Tenants × Bool
replace_found none t s = (s, false)
replace_found (some old) t s = (Dict.put s t.id t, true)

unfoldable pub update_tenant : Tenant → Tenants → Tenants × Bool
unfolding replace_found
update_tenant t s = replace_found (Dict.get s t.id) t s

unfoldable pub delete_found : Option Tenant → String → Tenants → Tenants × Bool
delete_found none id s = (s, false)
delete_found (some old) id s = (Dict.remove s id, true)

unfoldable pub delete_tenant : String → Tenants → Tenants × Bool
unfolding delete_found
delete_tenant id s = delete_found (Dict.get s id) id s
