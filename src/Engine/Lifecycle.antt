-- ===== src/Engine/Lifecycle.antt =====
-- internal/robot/execution_engine.go: a navigation task from its start to its end. The state is that of
-- the state manager, the runner's World, and the events that were broadcast (events.go). `none` as a
-- result is a task that still waits for the robot. The logs are left out.
pub mod Results
pub mod Concluded
pub mod Declines
use sai_aurosy.Prelude.{
  Bool, true, false, ◌&&◌, ◌||◌, Option, none, some, List, [], ◌∷◌, ◌++◌, String, ◌==◌,
  if◌then◌else◌,
}
use sai_aurosy.Hal.{Time, Command}
use sai_aurosy.Codec.{Codec, NavPayload}
use sai_aurosy.Telemetry.{Link, publish_command}
use sai_aurosy.Arbiter.Safety.{safety_allow}
use sai_aurosy.Robot.StateMachine.{RobotState, idle, navigating, arrived, returning, error}
use sai_aurosy.Robot.Manager.{Manager, Details, transition}
use sai_aurosy.Tasks.Types.{Task, Status, completed, failed, cancelled}
use sai_aurosy.Tasks.Store as TaskStore
use sai_aurosy.Tasks.World.{World, ended, emit}
use sai_aurosy.Engine.Navigation.{NavigationExecutor}
use sai_aurosy.Engine.Executor.{TaskExecutionResult, Watch, nav_payload, store_of, execute_task}

pub data Broadcast : Type 0 where
  state_changed : String → RobotState → RobotState → String → Broadcast
  navigation_started : String → String → String → String → Broadcast
  navigation_completed : String → String → String → Broadcast
  navigation_failed : String → String → String → Broadcast
  returning_to_base : String → String → Broadcast
  robot_idle : String → Broadcast

pub record Config : Type 0 where
  pub broadcasts : Bool
  pub stores : Bool
  pub timeout_as_completion : Bool

pub record EngineState : Type 0 where
  pub robots : Manager
  pub world : World
  pub broadcasts : List Broadcast

-- The arguments of `Transition` in their order.
details : String → String → String → String → String → Details
details task_id target_store dest_node target_coords status_msg = record {
  task_id = task_id;
  target_store = target_store;
  dest_node = dest_node;
  target_coords = target_coords;
  status_msg = status_msg;
}

-- The call of `Transition`, whose result the engine does not use.
pub change : String → RobotState → Details → Time → EngineState → EngineState
change robot_id to d now st = record st { robots = (transition robot_id to d now st.robots).0 }

module _ {F : Type 0} (c : Codec F) (link : Link) (e : NavigationExecutor F) (cfg : Config) where
  broadcast : Broadcast → EngineState → EngineState
  broadcast event st = record st {
    broadcasts = if cfg.broadcasts then st.broadcasts ++ event ∷ [] else st.broadcasts;
  }

  -- emitTaskCompleted, and the update of the task store behind it.
  finish : String → String → Status → Time → EngineState → EngineState
  unfolding emit
  finish task_id robot_id status now st =
      let w = emit (ended task_id robot_id status) st.world in
      record st {
        world = record w {
          tasks =
              if cfg.stores
              then TaskStore.update_status_and_completed_at task_id status now now w.tasks
              else w.tasks;
        };
      }

  pub stop_command : String → Time → Command
  stop_command robot_id now = record {
    robot_id = robot_id;
    command = "safe_stop";
    payload = "";
    timestamp = now;
    operator_id = "";
  }

  stop_robot : String → Time → EngineState → EngineState
  unfolding stop_command publish_command
  stop_robot robot_id now st =
      let cmd = stop_command robot_id now in
      record st {
        world = record st.world {
          sent =
              if safety_allow c cmd
              then (publish_command link cmd st.world.sent).0
              else st.world.sent;
        };
      }

  -- result.Success || (result.Timeout && e.timeoutAsCompletion)
  pub is_completed : TaskExecutionResult → Bool
  is_completed r = r.success || (r.timeout && cfg.timeout_as_completion)

  pub failed_status : TaskExecutionResult → Status
  failed_status r = if r.cancelled then cancelled else failed

  -- The failure branch of both handlers, with the arguments in which they differ.
  conclude_failure :
      String
      → String
      → Details
      → RobotState
      → TaskExecutionResult
      → Time
      → EngineState
      → EngineState
  unfolding change broadcast stop_robot failed_status finish
  conclude_failure robot_id task_id d previous r now st =
      let st1 = change robot_id error d now st in
      let st2 = broadcast (state_changed robot_id error previous task_id) st1 in
      let st3 = broadcast (navigation_failed robot_id task_id r.reason) st2 in
      let st4 = stop_robot robot_id now st3 in finish task_id robot_id (failed_status r) now st4

  pub handle_navigate_to_store_result :
      String → String → String → String → TaskExecutionResult → Time → EngineState → EngineState
  unfolding conclude_failure
  handle_navigate_to_store_result robot_id task_id target_store dest r now st =
      if is_completed r
      then (let st1 =
            change robot_id arrived (details task_id target_store "" dest "arrived") now st in
          let st2 = broadcast (state_changed robot_id arrived navigating task_id) st1 in
          let st3 = broadcast (navigation_completed robot_id task_id dest) st2 in
          finish task_id robot_id completed now st3)
      else conclude_failure robot_id task_id (details task_id target_store "" dest r.reason)
          navigating r now st

  pub handle_navigation_result :
      String → String → TaskExecutionResult → Time → EngineState → EngineState
  unfolding conclude_failure
  handle_navigation_result robot_id task_id r now st =
      if is_completed r
      then (let st1 = change robot_id idle (details task_id "" "" "" "idle") now st in
          let st2 = broadcast (state_changed robot_id idle returning task_id) st1 in
          let st3 = broadcast (robot_idle robot_id) st2 in
          finish task_id robot_id completed now st3)
      else conclude_failure robot_id task_id (details task_id "" "" "" r.reason) returning r now st

  sent_by : List Command → EngineState → EngineState
  sent_by sent st = record st { world = record st.world { sent = sent } }

  -- `if !result.Handled { return false }`, and the handler behind it.
  after_task :
      (TaskExecutionResult → EngineState → EngineState)
      → EngineState
      → List Command × Option TaskExecutionResult
      → EngineState × Option Bool
  unfolding sent_by
  after_task handle st (sent, none) = (sent_by sent st, none)
  after_task handle st (sent, some r) =
      if r.handled then (handle r (sent_by sent st), some true) else (sent_by sent st, some false)

  unfoldable pub execute_navigate_to_store :
      Task → Watch F → EngineState → EngineState × Option Bool
  unfolding after_task handle_navigate_to_store_result nav_payload store_of change broadcast details
  execute_navigate_to_store task watch st =
      let p = nav_payload c task in
      let d =
        details task.id (store_of p) p.destination_node_id p.target_coordinates "navigating" in
      let st1 = change task.robot_id navigating d watch.now st in
      let st2 = broadcast (state_changed task.robot_id navigating idle task.id) st1 in
      let st3 =
        broadcast (navigation_started task.robot_id task.id p.target_coordinates (store_of p))
          st2 in
      after_task
        (λ r.
          handle_navigate_to_store_result task.robot_id task.id (store_of p) p.target_coordinates r
            watch.ended)
        st3 (execute_task c link e task watch st3.world.sent)

  unfoldable pub execute_return_to_base : Task → Watch F → EngineState → EngineState × Option Bool
  unfolding after_task handle_navigation_result change broadcast details
  execute_return_to_base task watch st =
      let d = details task.id "" "" "" "returning to base" in
      let st1 = change task.robot_id returning d watch.now st in
      let st2 = broadcast (state_changed task.robot_id returning arrived task.id) st1 in
      let st3 = broadcast (returning_to_base task.robot_id task.id) st2 in
      after_task (λ r. handle_navigation_result task.robot_id task.id r watch.ended) st3
        (execute_task c link e task watch st3.world.sent)

  unfoldable pub execute_task_entry : Task → Watch F → EngineState → EngineState × Option Bool
  unfolding execute_navigate_to_store execute_return_to_base
  execute_task_entry task watch st =
      if task.scenario_id == "navigate_to_store"
      then execute_navigate_to_store task watch st
      else if task.scenario_id == "navigation"
      then execute_return_to_base task watch st
      else (st, some false)
