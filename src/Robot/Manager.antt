-- ===== src/Robot/Manager.antt =====
-- internal/robot/state_manager.go: the execution context of each robot. Every method runs under the
-- mutex, and contexts go in and out as copies, so the map holds values.
pub mod Legal
mod Examples
use sai_aurosy.Prelude.{Bool, true, false, Option, none, some, List, String, if◌then◌else◌}
use sai_aurosy.Dict
use sai_aurosy.Dict.{Dict}
use sai_aurosy.Hal.{Time}
use sai_aurosy.Robot.StateMachine.{RobotState, RobotContext, idle, can_transition}

abbrev pub Manager : Type 0
Manager = Dict RobotContext

-- The arguments of `Transition` behind the target state.
pub record Details : Type 0 where
  pub task_id : String
  pub target_store : String
  pub dest_node : String
  pub target_coords : String
  pub status_msg : String

pub get_context : String → Manager → Option RobotContext
get_context robot_id m = Dict.get m robot_id

pub set_context : RobotContext → Time → Manager → Manager
set_context ctx now m = Dict.put m ctx.robot_id (record ctx { updated_at = now })

-- The context that `Transition` makes for a robot it does not know.
fresh : String → Details → Time → RobotContext
fresh robot_id d now = record {
  robot_id = robot_id;
  current_state = idle;
  previous_state = idle;
  current_task_id = d.task_id;
  target_store = d.target_store;
  destination_node = d.dest_node;
  target_coords = d.target_coords;
  status_message = d.status_msg;
  updated_at = now;
}

-- The assignments behind the test of `Transition`.
moved : RobotState → Details → Time → RobotContext → RobotContext
moved to_state d now ctx = record ctx {
  previous_state = ctx.current_state;
  current_state = to_state;
  current_task_id = d.task_id;
  target_store = d.target_store;
  destination_node = d.dest_node;
  target_coords = d.target_coords;
  status_message = d.status_msg;
  updated_at = now;
}

try_move : RobotState → Details → Time → String → RobotContext → Manager → Manager × Bool
unfolding moved
try_move to_state d now robot_id ctx m =
    if can_transition ctx.current_state to_state
    then (Dict.put m robot_id (moved to_state d now ctx), true)
    else (m, false)

-- A robot that is not known gets an idle context first, and keeps it if the move is refused.
from_found : Option RobotContext → String → RobotState → Details → Time → Manager → Manager × Bool
unfolding try_move fresh
from_found none robot_id to_state d now m =
    let ctx = fresh robot_id d now in try_move to_state d now robot_id ctx (Dict.put m robot_id ctx)
from_found (some ctx) robot_id to_state d now m = try_move to_state d now robot_id ctx m

unfoldable pub transition : String → RobotState → Details → Time → Manager → Manager × Bool
unfolding from_found
transition robot_id to_state d now m = from_found (Dict.get m robot_id) robot_id to_state d now m

blank : String → Time → RobotContext
unfolding fresh
blank robot_id now =
    fresh robot_id
      (record {
        task_id = "";
        target_store = "";
        dest_node = "";
        target_coords = "";
        status_msg = "";
      })
      now

created : Option RobotContext → String → Time → Manager → Manager × RobotContext
unfolding blank
created none robot_id now m = (Dict.put m robot_id (blank robot_id now), blank robot_id now)
created (some ctx) robot_id now m = (m, ctx)

unfoldable pub get_or_create : String → Time → Manager → Manager × RobotContext
unfolding created
get_or_create robot_id now m = created (Dict.get m robot_id) robot_id now m

pub list_contexts : Manager → List RobotContext
list_contexts m = Dict.values m
