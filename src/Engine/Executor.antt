-- ===== src/Engine/Executor.antt =====
-- internal/robot/task_executor.go: from a navigation task to a request of the navigation executor.
pub mod Handled
use sai_aurosy.Prelude.{Bool, true, false, Option, some, List, String, ◌==◌, if◌then◌else◌}
use sai_aurosy.Prelude.Int.{pos}
use mathlib.Core.Option
use sai_aurosy.Hal.{Time, Command}
use sai_aurosy.Codec.{Codec, NavPayload}
use sai_aurosy.Telemetry.{Link}
use sai_aurosy.Tasks.Types.{Task}
use sai_aurosy.Engine.Navigation.{
  NavigationRequest, NavigationResult, NavigationExecutor, Signal, execute,
}

pub record TaskExecutionResult : Type 0 where
  pub handled : Bool
  pub success : Bool
  pub timeout : Bool
  pub cancelled : Bool
  pub reason : String

-- What the environment does during one task: when it starts, whether the subscription succeeds, the
-- signals, and when the result is handled.
pub record Watch (F : Type 0) : Type 0 where
  pub now : Time
  pub subscribes : Bool
  pub signals : List (Signal F)
  pub ended : Time

unfoldable pub refused : Bool → String → TaskExecutionResult
refused handled reason = record {
  handled = handled;
  success = false;
  timeout = false;
  cancelled = false;
  reason = reason;
}

unfoldable pub handled_result : NavigationResult → TaskExecutionResult
handled_result res = record {
  handled = true;
  success = res.success;
  timeout = res.timeout;
  cancelled = res.cancelled;
  reason = res.reason;
}

-- An empty payload leaves the struct empty.
unfoldable pub nav_payload : {F : Type 0} → Codec F → Task → NavPayload
nav_payload c task =
    if task.payload == ""
    then record {
      target_coordinates = "";
      store_name = "";
      target_store = "";
      destination_node_id = "";
    }
    else c.decode_nav task.payload

-- The store's name, or else the target store.
unfoldable pub store_of : NavPayload → String
store_of p = if p.store_name == "" then p.target_store else p.store_name

module _ {F : Type 0} (c : Codec F) (link : Link) (e : NavigationExecutor F) where
  store_request : Task → NavPayload → NavigationRequest
  unfolding store_of
  store_request task p = record {
    robot_id = task.robot_id;
    task_id = task.id;
    target_coords = p.target_coordinates;
    store_name = store_of p;
    dest_node_id = p.destination_node_id;
    operator_id = task.operator_id;
    is_return = false;
    timeout = pos 30000;
  }

  return_request : Task → NavPayload → NavigationRequest
  return_request task p = record {
    robot_id = task.robot_id;
    task_id = task.id;
    target_coords = p.target_coordinates;
    store_name = "";
    dest_node_id = "";
    operator_id = task.operator_id;
    is_return = true;
    timeout = pos 60000;
  }

  run_request :
      NavigationRequest → Watch F → List Command → List Command × Option TaskExecutionResult
  unfolding execute handled_result
  run_request req watch sent =
      let (sent', res) = execute c link e req watch.now watch.subscribes watch.signals sent in
      (sent', Option.map handled_result res)

  execute_navigate : Task → Watch F → List Command → List Command × Option TaskExecutionResult
  unfolding store_request run_request nav_payload refused
  execute_navigate task watch sent =
      let p = nav_payload c task in
      if p.target_coordinates == ""
      then (sent, some (refused true "missing target_coordinates"))
      else run_request (store_request task p) watch sent

  execute_navigation : Task → Watch F → List Command → List Command × Option TaskExecutionResult
  unfolding return_request run_request nav_payload refused
  execute_navigation task watch sent =
      let p = nav_payload c task in
      if p.target_coordinates == ""
      then (sent, some (refused true "missing target_coordinates"))
      else run_request (return_request task p) watch sent

  unfoldable pub execute_task :
      Task → Watch F → List Command → List Command × Option TaskExecutionResult
  unfolding execute_navigate execute_navigation refused
  execute_task task watch sent =
      if task.scenario_id == "navigate_to_store"
      then execute_navigate task watch sent
      else if task.scenario_id == "navigation"
      then execute_navigation task watch sent
      else (sent, some (refused false "unsupported scenario"))
