-- ===== src/Registry.antt =====
-- pkg/control-plane/registry/store.go: the fleet registry in memory. Every method runs under the
-- mutex. `Add` stores the caller's pointer; the callers do not change the robot afterwards, so the
-- map holds the value. The time that `Add` reads is an argument.
use sai_aurosy.Prelude.{
  Bool, true, false, ◌||◌, Option, none, some, List, [], String, ◌==◌, nat_eq, select,
  if◌then◌else◌,
}
use sai_aurosy.Dict
use sai_aurosy.Dict.{Dict}
use sai_aurosy.Hal.{Time, Robot}

abbrev pub Fleet : Type 0
Fleet = Dict Robot

abbrev pub new_fleet : Fleet
new_fleet = []

unfoldable pub add : Robot → Time → Fleet → Fleet
add r now fleet = Dict.put fleet r.id (record r {
  updated_at = now;
  created_at = if nat_eq r.created_at 0 then now else r.created_at;
})

unfoldable pub get_robot : String → Fleet → Option Robot
get_robot id fleet = Dict.get fleet id

unfoldable pub list_robots : Fleet → List Robot
list_robots fleet = Dict.values fleet

-- The test in the loop of `ListByTenant`.
unfoldable pub seen_by : String → Robot → Bool
seen_by tenant_id r = tenant_id == "" || r.tenant_id == tenant_id

unfoldable pub list_by_tenant : String → Fleet → List Robot
unfolding seen_by
list_by_tenant tenant_id fleet = select (seen_by tenant_id) (Dict.values fleet)

unfoldable pub delete_found : Option Robot → String → Fleet → Fleet × Bool
delete_found none id fleet = (fleet, false)
delete_found (some r) id fleet = (Dict.remove fleet id, true)

unfoldable pub delete_robot : String → Fleet → Fleet × Bool
unfolding delete_found
delete_robot id fleet = delete_found (Dict.get fleet id) id fleet
