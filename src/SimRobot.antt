-- ===== src/SimRobot.antt =====
-- internal/simrobot: the simulated robot (types.go, robot.go). Its parts: commands
-- (command_handler.go), failures (failures.go) and the tick (simulator.go, telemetry.go). Every
-- handler and tick runs under the robot's mutex. What the code takes from `float64`, `math`,
-- `strings`, `strconv` and `encoding/json` is the parameter `Numbers`.
pub mod Commands
pub mod Ticks
pub mod Unmoved
pub mod Consistent
pub mod Service
mod Examples
use sai_aurosy.Prelude.{ℕ, Bool, true, false, Option, none, List, [], ◌∷◌, String}
use sai_aurosy.Prelude.Int.{ℤ, pos}
use sai_aurosy.Hal.{Time}

pub data SimMode : Type 0 where
  idle navigating arrived returning safe_stop error stand walk : SimMode

pub data FailureType : Type 0 where
  navigation_timeout offline_mid_route safe_stop_mid_route battery_low command_rejected :
      FailureType
  delayed_arrival unknown_failure : FailureType

-- The payload of navigate_to, and the floats with the literals of the code.
pub record NavigatePayload : Type 0 where
  pub target_coordinates : String
  pub route : List String

pub record Numbers (F : Type 0) : Type 0 where
  pub less : F → F → Bool
  pub add : F → F → F
  pub sub : F → F → F
  pub mul : F → F → F
  pub over : F → F → F
  pub sqrt : F → F
  pub zero_float : F
  pub half : F
  pub one : F
  pub five : F
  pub hundred : F
  pub nine_nine_nine : F
  pub split_commas : String → List String
  pub trim_space : String → String
  pub parse_float : String → Option F
  pub decode_navigate : String → NavigatePayload
  pub decode_text : String → String
  pub format_position : F → F → String

module _ (F : Type 0) where
  pub record FailureConfig : Type 0 where
    pub kind : FailureType
    pub after_ticks : ℤ
    pub when_distance_lt : F
    pub after_command : String
    pub battery_level : F
    pub slowdown_factor : F
    pub duration_ticks : ℤ
    pub applied : Bool

  pub record Position : Type 0 where
    pub x : F
    pub y : F

  pub record SimState : Type 0 where
    pub robot_id : String
    pub tenant_id : String
    pub robot_type : String
    pub capabilities : List String
    pub online : Bool
    pub mode : SimMode
    pub position : Position
    pub target_position : Position
    pub route_nodes : List String
    pub route_index : ℕ
    pub distance_to_target : F
    pub speed : F
    pub battery_level : F
    pub current_task_id : String
    pub current_scenario : String
    pub last_command : String
    pub last_spoken_text : String
    pub tick_count : ℕ
    pub updated_at : Time

  -- `hal.Telemetry`, as the simulator fills it.
  pub record Telemetry : Type 0 where
    pub robot_id : String
    pub timestamp : Time
    pub online : Bool
    pub actuator_status : String
    pub mock_mode : Bool
    pub current_task : String
    pub position : String
    pub target_position : String
    pub distance_to_target : F

  -- The robot, with the telemetry that it sent to the bus.
  pub record SimRobot : Type 0 where
    pub id : String
    pub state : SimState
    pub failure_config : Option FailureConfig
    pub published : List Telemetry

module _ {F : Type 0} (num : Numbers F) where
  abbrev pub at_base : Position F
  at_base = record { x = num.zero_float; y = num.zero_float }

  unfoldable pub new_state : String → String → String → List String → Time → SimState F
  new_state robot_id tenant_id robot_type caps now = record {
    robot_id = robot_id;
    tenant_id = tenant_id;
    robot_type = robot_type;
    capabilities = caps;
    online = true;
    mode = idle;
    position = at_base;
    target_position = at_base;
    route_nodes = [];
    route_index = 0;
    distance_to_target = num.zero_float;
    speed = num.one;
    battery_level = num.hundred;
    current_task_id = "";
    current_scenario = "";
    last_command = "";
    last_spoken_text = "";
    tick_count = 0;
    updated_at = now;
  }

  unfoldable pub reset : Time → SimRobot F → SimRobot F
  reset now r = record r {
    state = record r.state {
      mode = idle;
      position = at_base;
      target_position = at_base;
      route_nodes = [];
      route_index = 0;
      distance_to_target = num.zero_float;
      online = true;
      current_task_id = "";
      current_scenario = "";
      last_command = "";
      tick_count = 0;
      updated_at = now;
    };
    failure_config = none;
  }

  unfoldable pub set_failure_config : Option (FailureConfig F) → SimRobot F → SimRobot F
  set_failure_config cfg r = record r { failure_config = cfg }

  unfoldable pub clear_failure_config : SimRobot F → SimRobot F
  clear_failure_config r = record r { failure_config = none }
