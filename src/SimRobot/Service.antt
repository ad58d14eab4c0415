-- ===== src/SimRobot/Service.antt =====
-- internal/simrobot: the making of a robot (robot.go) and the service over all of them (service.go).
-- The service's methods run under its mutex. `Start` and `Stop`, which manage the goroutine and the
-- subscription of a robot, are not modelled: Ticks has the events that they bring.
use sai_aurosy.Prelude.{
  Bool, true, false, Option, none, some, List, [], ◌∷◌, map, String, ◌==◌, if◌then◌else◌,
}
use sai_aurosy.Dict
use sai_aurosy.Dict.{Dict}
use sai_aurosy.Hal.{Time, Robot}
use sai_aurosy.Registry.{Fleet, add}
use sai_aurosy.SimRobot.{
  Numbers, FailureConfig, SimState, SimRobot, new_state, reset, set_failure_config,
}

pub record CreateRobotOpts : Type 0 where
  pub robot_id : String
  pub tenant_id : String
  pub robot_type : String

abbrev sim_capabilities : List String
sim_capabilities =
    "walk" ∷ "stand" ∷ "safe_stop" ∷ "release_control" ∷ "cmd_vel" ∷ "patrol" ∷ "navigation"
    ∷ "speech" ∷ []

unfoldable pub or_else : String → String → String
or_else s d = if s == "" then d else s

unfoldable pub fleet_entry : CreateRobotOpts → Time → Robot
unfolding or_else
fleet_entry opts now = record {
  id = or_else opts.robot_id "sim-001";
  vendor = "simulated";
  model = or_else opts.robot_type "simulated";
  adapter_endpoint = "internal";
  tenant_id = or_else opts.tenant_id "default";
  edge_id = "";
  location = "";
  capabilities = sim_capabilities;
  created_at = now;
  updated_at = now;
}

module _ {F : Type 0} (num : Numbers F) where
  unfoldable pub new_sim_robot : CreateRobotOpts → Time → Fleet → SimRobot F × Fleet
  unfolding fleet_entry or_else
  new_sim_robot opts now fleet = (
    record {
      id = or_else opts.robot_id "sim-001";
      state =
          new_state num (or_else opts.robot_id "sim-001") (or_else opts.tenant_id "default")
            (or_else opts.robot_type "simulated") sim_capabilities now;
      failure_config = none;
      published = [];
    },
    add (fleet_entry opts now) now fleet,
  )

  pub record Service : Type 0 where
    pub fleet : Fleet
    pub robots : Dict (SimRobot F)

  unfoldable pub create_absent :
      Option (SimRobot F) → CreateRobotOpts → Time → Service → Service × Bool
  unfolding new_sim_robot or_else
  create_absent (some r) opts now s = (s, false)
  create_absent none opts now s =
      let (robot, fleet) = new_sim_robot opts now s.fleet in
      (
        record {
          fleet = fleet;
          robots = Dict.put s.robots (or_else opts.robot_id "sim-001") robot;
        },
        true,
      )

  unfoldable pub create_robot : CreateRobotOpts → Time → Service → Service × Bool
  unfolding create_absent or_else
  create_robot opts now s =
      create_absent (Dict.get s.robots (or_else opts.robot_id "sim-001")) opts now s

  -- A method that needs the robot, and changes it.
  unfoldable pub with_found :
      Option (SimRobot F) → (SimRobot F → SimRobot F) → String → Service → Service × Bool
  with_found none f id s = (s, false)
  with_found (some r) f id s = (record s { robots = Dict.put s.robots id (f r) }, true)

  unfoldable pub reset_robot : String → Time → Service → Service × Bool
  unfolding with_found
  reset_robot id now s = with_found (Dict.get s.robots id) (reset num now) id s

  unfoldable pub inject_failure : String → Option (FailureConfig F) → Service → Service × Bool
  unfolding with_found
  inject_failure id cfg s = with_found (Dict.get s.robots id) (set_failure_config num cfg) id s

  unfoldable pub state_of : Option (SimRobot F) → Option (SimState F)
  state_of none = none
  state_of (some r) = some r.state

  unfoldable pub get_state : String → Service → Option (SimState F)
  unfolding state_of
  get_state id s = state_of (Dict.get s.robots id)

  unfoldable pub list_robots : Service → List String
  list_robots s = map (λ e. e.0) s.robots
