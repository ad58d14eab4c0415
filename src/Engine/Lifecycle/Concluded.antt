-- ===== src/Engine/Lifecycle/Concluded.antt =====
-- How the engine leaves a task and its robot.
use sai_aurosy.Prelude.{
  ◌≡◌, refl, inl, inr, true, Option, none, some, List, String, arith, Bool-cases,
}
use sai_aurosy.Hal.{Time, Command}
use sai_aurosy.Codec.{Codec, NavPayload}
use sai_aurosy.Telemetry.{Link}
use sai_aurosy.Robot.StateMachine.{RobotState, idle, navigating, arrived, returning, can_transition}
use sai_aurosy.Robot.Manager.{Details}
use sai_aurosy.Robot.Manager.Legal.{state_of}
use sai_aurosy.Tasks.Types.{Task}
use sai_aurosy.Tasks.World.{World}
use sai_aurosy.Tasks.Steps.Outcome.{Has}
use sai_aurosy.Engine.Navigation.{NavigationExecutor}
use sai_aurosy.Engine.Executor.{TaskExecutionResult, Watch, nav_payload, store_of}
use sai_aurosy.Engine.Lifecycle.{
  Config, EngineState, Broadcast, state_changed, navigation_started, returning_to_base, details,
  change, broadcast, stop_command, handle_navigate_to_store_result, handle_navigation_result,
  sent_by, after_task, execute_navigate_to_store, execute_return_to_base,
}
use sai_aurosy.Engine.Lifecycle.Results.{
  Concluded, rebase, change-state, store_result-Concluded, return_result-Concluded,
}

module _ {F : Type 0} (c : Codec F) (link : Link) (e : NavigationExecutor F) (cfg : Config) where
  module _ (stores : cfg.stores ≡ true)
      (accepts : (robot_id : String) (now : Time)
        → link (stop_command c link e cfg robot_id now) ≡ true) where
    after_task-Concluded :
        (good : RobotState) (task : Task) (w : World)
        (handle : TaskExecutionResult → EngineState → EngineState) (st : EngineState)
        (p : List Command × Option TaskExecutionResult)
        → ((r : TaskExecutionResult) (sent : List Command)
            → Concluded c link e cfg good task w (handle r (sent_by c link e cfg sent st)))
        → (after_task c link e cfg handle st p).1 ≡ some true
        → Concluded c link e cfg good task w (after_task c link e cfg handle st p).0
    unfolding after_task
    after_task-Concluded good task w handle st (sent, none) h q = cc
    after_task-Concluded good task w handle st (sent, some r) h q = elim (Bool-cases r.handled) [
      | inl y ↦ simp y (h r sent)
      | inr y ↦ absurd (ground (arith, y))
    ]

    -- Suppose the engine has a task store, which has the task, the bus accepts `safe_stop`, and the robot's
    -- state allows it to go to navigating. If `ExecuteNavigateToStore` handles the task to its end, then
    -- either the task is closed as completed and the robot is in the arrived state, or it is closed
    -- as failed or cancelled, the robot is in the error state and the last command is its `safe_stop`.
    -- Closed means that one completion was announced and the task is stored with that status and a
    -- completion time.
    pub execute_navigate_to_store-Concluded :
        (task : Task) (watch : Watch F) (st : EngineState)
        → Has task.id st.world
        → can_transition (state_of st.robots task.robot_id) navigating ≡ true
        → (execute_navigate_to_store c link e cfg task watch st).1 ≡ some true
        → Concluded c link e cfg arrived task st.world
            (execute_navigate_to_store c link e cfg task watch st).0
    unfolding execute_navigate_to_store
    execute_navigate_to_store-Concluded task watch st has k q =
        after_task-Concluded arrived task st.world
          (λ r.
            handle_navigate_to_store_result c link e cfg task.robot_id task.id (store_of p)
              p.target_coordinates r watch.ended)
          st3 _
          (λ r sent. rebase c link e cfg arrived task st.world sent _ (
            unfold sent_by broadcast change in
            store_result-Concluded c link e cfg stores accepts task (store_of p)
              p.target_coordinates r watch.ended (sent_by c link e cfg sent st3)
              (change-state c link e cfg task.robot_id (state_of st.robots task.robot_id) navigating
                d watch.now st refl k)
              has))
          q
      where
        p : NavPayload
        p = nav_payload c task

        d : Details
        d = details task.id (store_of p) p.destination_node_id p.target_coordinates "navigating"

        a : Broadcast
        a = state_changed task.robot_id navigating idle task.id

        b : Broadcast
        b = navigation_started task.robot_id task.id p.target_coordinates (store_of p)

        st3 : EngineState
        st3 =
            broadcast c link e cfg b
              (broadcast c link e cfg a (change task.robot_id navigating d watch.now st))

    -- Under the same conditions, with returning in place of navigating: a task that `ExecuteReturnToBase`
    -- handles to its end is closed as completed with an idle robot, or as failed or cancelled with the
    -- robot in the error state and its `safe_stop` as the last command.
    pub execute_return_to_base-Concluded :
        (task : Task) (watch : Watch F) (st : EngineState)
        → Has task.id st.world
        → can_transition (state_of st.robots task.robot_id) returning ≡ true
        → (execute_return_to_base c link e cfg task watch st).1 ≡ some true
        → Concluded c link e cfg idle task st.world
            (execute_return_to_base c link e cfg task watch st).0
    unfolding execute_return_to_base
    execute_return_to_base-Concluded task watch st has k q =
        after_task-Concluded idle task st.world
          (λ r. handle_navigation_result c link e cfg task.robot_id task.id r watch.ended) st3 _
          (λ r sent. rebase c link e cfg idle task st.world sent _ (
            unfold sent_by broadcast change in
            return_result-Concluded c link e cfg stores accepts task r watch.ended
              (sent_by c link e cfg sent st3)
              (change-state c link e cfg task.robot_id (state_of st.robots task.robot_id) returning
                d watch.now st refl k)
              has))
          q
      where
        d : Details
        d = details task.id "" "" "" "returning to base"

        a : Broadcast
        a = state_changed task.robot_id returning arrived task.id

        b : Broadcast
        b = returning_to_base task.robot_id task.id

        st3 : EngineState
        st3 =
            broadcast c link e cfg b
              (broadcast c link e cfg a (change task.robot_id returning d watch.now st))
