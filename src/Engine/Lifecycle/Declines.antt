-- ===== src/Engine/Lifecycle/Declines.antt =====
-- A task that the engine leaves to the runner.
use sai_aurosy.Prelude.{
  ◌≡◌, ◌≢◌, refl, inl, inr, true, false, ◌||◌, Option, none, some, List, ◌==◌, arith, Bool-cases,
}
use sai_aurosy.Hal.{Command}
use sai_aurosy.Codec.{Codec}
use sai_aurosy.Telemetry.{Link}
use sai_aurosy.Tasks.Types.{Task}
use sai_aurosy.Robot.StateMachine.{idle, navigating, arrived, returning}
use sai_aurosy.Engine.Navigation.{NavigationExecutor}
use sai_aurosy.Engine.Executor.{TaskExecutionResult, Watch, nav_payload, store_of}
use sai_aurosy.Engine.Executor.Handled.{execute_task-handled}
use sai_aurosy.Engine.Lifecycle.{
  Config, EngineState, state_changed, navigation_started, returning_to_base, details, change,
  broadcast, handle_navigate_to_store_result, handle_navigation_result, after_task,
  execute_navigate_to_store, execute_return_to_base, execute_task_entry,
}

module _ {F : Type 0} (c : Codec F) (link : Link) (e : NavigationExecutor F) (cfg : Config) where
  after_task-takes :
      (handle : TaskExecutionResult → EngineState → EngineState) (st : EngineState)
      (p : List Command × Option TaskExecutionResult)
      → ((r : TaskExecutionResult) → p.1 ≡ some r → r.handled ≡ true)
      → (after_task c link e cfg handle st p).1 ≢ some false
  unfolding after_task
  after_task-takes handle st (sent, none) h q = cc
  after_task-takes handle st (sent, some r) h q = ground (arith, h r refl)

  execute_navigate_to_store-takes :
      (task : Task) (watch : Watch F) (st : EngineState)
      → (task.scenario_id == "navigate_to_store" || task.scenario_id == "navigation") ≡ true
      → (execute_navigate_to_store c link e cfg task watch st).1 ≢ some false
  unfolding execute_navigate_to_store
  execute_navigate_to_store-takes task watch st h =
      let p = nav_payload c task in
      let d =
        details task.id (store_of p) p.destination_node_id p.target_coordinates "navigating" in
      let st1 = change task.robot_id navigating d watch.now st in
      let st2 = broadcast c link e cfg (state_changed task.robot_id navigating idle task.id) st1 in
      let start = navigation_started task.robot_id task.id p.target_coordinates (store_of p) in
      after_task-takes
        (λ r.
          handle_navigate_to_store_result c link e cfg task.robot_id task.id (store_of p)
            p.target_coordinates r watch.ended)
        (broadcast c link e cfg start st2) _ (λ r. execute_task-handled c link e task watch _ r h)

  execute_return_to_base-takes :
      (task : Task) (watch : Watch F) (st : EngineState)
      → (task.scenario_id == "navigate_to_store" || task.scenario_id == "navigation") ≡ true
      → (execute_return_to_base c link e cfg task watch st).1 ≢ some false
  unfolding execute_return_to_base
  execute_return_to_base-takes task watch st h =
      let d = details task.id "" "" "" "returning to base" in
      let st1 = change task.robot_id returning d watch.now st in
      let st2 =
        broadcast c link e cfg (state_changed task.robot_id returning arrived task.id) st1 in
      after_task-takes
        (λ r. handle_navigation_result c link e cfg task.robot_id task.id r watch.ended)
        (broadcast c link e cfg (returning_to_base task.robot_id task.id) st2) _
        (λ r. execute_task-handled c link e task watch _ r h)

  -- If `ExecuteTaskEntry` says that it did not handle a task, then it has changed nothing: no state of a
  -- robot, no task, no command and no event.
  pub execute_task_entry-unchanged :
      (task : Task) (watch : Watch F) (st : EngineState)
      → (execute_task_entry c link e cfg task watch st).1 ≡ some false
      → (execute_task_entry c link e cfg task watch st).0 ≡ st
  unfolding execute_task_entry
  execute_task_entry-unchanged task watch st q =
      elim (Bool-cases (task.scenario_id == "navigate_to_store")) [
        | inl y ↦
            absurd (execute_navigate_to_store-takes task watch st (ground (arith, y)) (simp y at q))
        | inr y ↦ elim (Bool-cases (task.scenario_id == "navigation")) [
          | inl z ↦
              absurd (
                execute_return_to_base-takes task watch st (ground (arith, y, z))
                  (simp (y, z) at q))
          | inr z ↦ simp (y, z) refl
        ]
      ]
