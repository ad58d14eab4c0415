-- ===== src/Robot/StateMachine.antt =====
-- internal/robot/state_machine.go. `RobotState` is a Go string that takes the eight declared values.
pub mod Paths
use sai_aurosy.Prelude.{Bool, true, false, String, if◌then◌else◌}
use sai_aurosy.Hal.{Time}

pub data RobotState : Type 0 where
  idle greeting_visitor processing_request planning_route navigating arrived returning error :
      RobotState

pub record RobotContext : Type 0 where
  pub robot_id : String
  pub current_state : RobotState
  pub previous_state : RobotState
  pub current_task_id : String
  pub target_store : String
  pub destination_node : String
  pub target_coords : String
  pub status_message : String
  pub updated_at : Time

-- toState == StateError
is_error : RobotState → Bool
is_error error = true
is_error _ = false

-- The `switch fromState`.
allowed : RobotState → RobotState → Bool
allowed idle greeting_visitor = true
allowed idle navigating = true
allowed idle returning = true
allowed greeting_visitor processing_request = true
allowed processing_request planning_route = true
allowed planning_route navigating = true
allowed navigating arrived = true
allowed navigating idle = true
allowed arrived returning = true
allowed arrived idle = true
allowed returning idle = true
allowed error returning = true
allowed error idle = true
allowed _ _ = false

unfoldable pub can_transition : RobotState → RobotState → Bool
unfolding is_error allowed
can_transition from_state to_state = if is_error to_state then true else allowed from_state to_state

pub is_execution_state : RobotState → Bool
is_execution_state idle = true
is_execution_state navigating = true
is_execution_state arrived = true
is_execution_state returning = true
is_execution_state error = true
is_execution_state _ = false
