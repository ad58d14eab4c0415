-- ===== src/Tasks/Store.antt =====
-- pkg/control-plane/tasks/store.go: `MemoryStore`. Its methods return no error and run under the
-- mutex; `Get` and `List` return copies. The time that a method reads is an argument.
pub mod Laws
use sai_aurosy.Prelude.{
  zero, Bool, true, false, not, ◌&&◌, Option, none, some, List, [], ◌∷◌, String, ◌==◌, any, nat_eq,
  if◌then◌else◌,
}
use sai_aurosy.Dict
use sai_aurosy.Dict.{Dict}
use sai_aurosy.Hal.{Time}
use sai_aurosy.Tasks.Types.{Task, Status, running, same_status}

-- An empty text, and `none` for the status, stand for no filter.
pub record ListFilters : Type 0 where
  pub robot_id : String
  pub tenant_id : String
  pub status : Option Status

abbrev pub Store : Type 0
Store = Dict Task

unfoldable pub create : Task → Time → Store → Store
create t now s = Dict.put s t.id (record t {
  updated_at = now;
  created_at = if nat_eq t.created_at 0 then now else t.created_at;
})

unfoldable pub get_task : String → Store → Option Task
get_task id s = Dict.get s id

differs : Option Status → Task → Bool
differs none t = false
differs (some st) t = not (same_status t.status st)

-- The three `continue` tests of `List`.
matches : ListFilters → Task → Bool
unfolding differs
matches f t =
    if not (f.robot_id == "") && not (t.robot_id == f.robot_id)
    then false
    else if not (f.tenant_id == "") && not (t.tenant_id == f.tenant_id)
    then false
    else if differs f.status t
    then false
    else true

select : ListFilters → List Task → List Task
unfolding matches
select f [] = []
select f (t ∷ ts) = let rest = select f ts in if matches f t then t ∷ rest else rest

unfoldable pub list_tasks : ListFilters → Store → List Task
unfolding select
list_tasks f s = select f (Dict.values s)

-- The task of a missing identifier is not made.
pub with_found : Option Task → (Task → Task) → String → Store → Store
with_found none f id s = s
with_found (some t) f id s = Dict.put s id (f t)

unfoldable pub update_status : String → Status → Time → Store → Store
unfolding with_found
update_status id st now s =
    with_found (Dict.get s id) (λ t. record t { status = st; updated_at = now }) id s

unfoldable pub update_status_and_completed_at : String → Status → Time → Time → Store → Store
unfolding with_found
update_status_and_completed_at id st completed now s =
    with_found (Dict.get s id)
      (λ t. record t { status = st; updated_at = now; completed_at = some completed }) id s

-- The test in the loop of `HasRunningForRobot`.
runs_on : String → Task → Bool
runs_on robot_id t = t.robot_id == robot_id && same_status t.status running

unfoldable pub has_running_for_robot : String → Store → Bool
unfolding runs_on
has_running_for_robot robot_id s = any (runs_on robot_id) (Dict.values s)
