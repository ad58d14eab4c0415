-- ===== src/Coordinator.antt =====
-- pkg/control-plane/coordinator: exclusive access of robots to zones (types.go, store.go; the
-- methods of coordinator.go only call those of the store). The mutex makes each method one step.
pub mod Locks
pub mod Exclusion
mod Examples
use sai_aurosy.Prelude.{
  Bool, true, false, not, Option, none, some, List, [], ◌∷◌, String, ◌==◌, is_some, if◌then◌else◌,
  map,
}
use sai_aurosy.Dict
use sai_aurosy.Dict.{Dict}
use sai_aurosy.Hal.{Time}

pub record Zone : Type 0 where
  pub id : String
  pub name : String

pub record ZoneLock : Type 0 where
  pub zone_id : String
  pub robot_id : String
  pub acquired : Time

pub record ZoneStatus : Type 0 where
  pub zone_id : String
  pub robot_id : Option String
  pub occupied : Bool

pub record Store : Type 0 where
  pub zones : Dict Zone
  pub locks : Dict ZoneLock

unfoldable pub new_store : Store
new_store = record { zones = []; locks = [] }

unfoldable pub register_zone : Zone → Store → Store
register_zone z s = record s { zones = Dict.put s.zones z.id z }

-- NewCoordinator
pub new_coordinator : Store
unfolding new_store register_zone
new_coordinator =
    register_zone (record { id = "C"; name = "Zone C" })
      (register_zone (record { id = "B"; name = "Zone B" })
        (register_zone (record { id = "A"; name = "Zone A" }) new_store))

pub list_zones : Store → List Zone
list_zones s = Dict.values s.zones

unfoldable pub acquire_zone : String → String → Time → Store → Store × Bool
acquire_zone robot_id zone_id now s = if is_some (Dict.get s.locks zone_id) then (s, false) else (
  record s {
    locks =
        Dict.put s.locks zone_id
          (record { zone_id = zone_id; robot_id = robot_id; acquired = now });
  },
  true,
)

-- `!ok || lock.RobotID != robotID`, on the lock found
held_by : String → Option ZoneLock → Bool
held_by robot_id none = false
held_by robot_id (some lock) = lock.robot_id == robot_id

unfoldable pub release_zone : String → String → Store → Store × Bool
unfolding held_by
release_zone robot_id zone_id s =
    if held_by robot_id (Dict.get s.locks zone_id)
    then (record s { locks = Dict.remove s.locks zone_id }, true)
    else (s, false)

unfoldable pub release_all_for_robot : String → Store → Store
release_all_for_robot robot_id s = record s {
  locks = Dict.delete_where (λ lock. lock.robot_id == robot_id) s.locks;
}

unfoldable pub is_zone_available : String → Store → Bool
is_zone_available zone_id s = not (is_some (Dict.get s.locks zone_id))

status_of : String → Option ZoneLock → ZoneStatus
status_of zone_id none = record { zone_id = zone_id; robot_id = none; occupied = false }
status_of zone_id (some lock) = record {
  zone_id = zone_id;
  robot_id = some lock.robot_id;
  occupied = true;
}

unfoldable pub get_zone_status : String → Store → ZoneStatus
unfolding status_of
get_zone_status zone_id s = status_of zone_id (Dict.get s.locks zone_id)

-- The loop over the registered zones, whose keys are the zone identifiers.
statuses_of : Dict Zone → Store → List ZoneStatus
unfolding get_zone_status
statuses_of [] s = []
statuses_of ((zone_id, z) ∷ zones) s = get_zone_status zone_id s ∷ statuses_of zones s

pub list_zone_statuses : Store → List ZoneStatus
unfolding statuses_of
list_zone_statuses s = statuses_of s.zones s
