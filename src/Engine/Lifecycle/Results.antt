-- ===== src/Engine/Lifecycle/Results.antt =====
-- How the handlers of a navigation result leave a task and its robot.
use sai_aurosy.Prelude.{
  ◌≡◌, refl, ◌∙◌, ◌⊎◌, inl, inr, true, List, [], ◌∷◌, ◌++◌, String, arith, Bool-cases,
}
use sai_aurosy.Hal.{Time, Command}
use sai_aurosy.Codec.{Codec}
use sai_aurosy.Telemetry.{Link, publish_command}
use sai_aurosy.Arbiter.Safety.{safety_allow}
use sai_aurosy.Robot.StateMachine.{
  RobotState, idle, navigating, arrived, returning, error, can_transition,
}
use sai_aurosy.Robot.Manager.{Details}
use sai_aurosy.Robot.Manager.Legal.{state_of, transition_lem}
use sai_aurosy.Tasks.Types.{Task, Status, completed, failed, cancelled}
use sai_aurosy.Tasks.World.{World, end_task}
use sai_aurosy.Tasks.Steps.Outcome.{Closed, Has, end_task-Closed}
use sai_aurosy.Engine.Navigation.{NavigationExecutor}
use sai_aurosy.Engine.Executor.{TaskExecutionResult}
use sai_aurosy.Engine.Lifecycle.{
  Config, EngineState, state_changed, navigation_completed, navigation_failed, robot_idle, details,
  change, broadcast, finish, stop_command, stop_robot, is_completed, failed_status,
  conclude_failure, handle_navigate_to_store_result, handle_navigation_result,
}

module _ {F : Type 0} (c : Codec F) (link : Link) (e : NavigationExecutor F) (cfg : Config) where
  -- From the world `w`, the task was closed as completed with its robot in the state `good`, or as failed
  -- or cancelled with its robot in the error state and a `safe_stop` for it as the last command.
  pub data Concluded (good : RobotState) (task : Task) (w : World) (st : EngineState) : Type 0 where
    reached :
        Closed task completed w st.world
        → state_of st.robots task.robot_id ≡ good
        → Concluded good task w st
    lost :
        (s : Status)
        → (s ≡ failed) ⊎ (s ≡ cancelled)
        → Closed task s w st.world
        → state_of st.robots task.robot_id ≡ error
        → (earlier : List Command) (time : Time)
        → st.world.sent ≡ earlier ++ stop_command c link e cfg task.robot_id time ∷ []
        → Concluded good task w st

  -- The commands that the bus had are not part of what is concluded.
  pub rebase :
      (good : RobotState) (task : Task) (w : World) (sent : List Command) (st : EngineState)
      → Concluded good task (record w { sent = sent }) st
      → Concluded good task w st
  rebase good task w sent st (reached x y) = reached x y
  rebase good task w sent st (lost s x y z earlier time l) = lost s x y z earlier time l

  pub change-state :
      (r : String) (from to : RobotState) (d : Details) (now : Time) (st : EngineState)
      → state_of st.robots r ≡ from
      → can_transition from to ≡ true
      → state_of (change r to d now st).robots r ≡ to
  unfolding change
  change-state r from to d now st h k = (transition_lem r to d now st.robots).1 ∙ rw (h, k) refl

  module _ (stores : cfg.stores ≡ true)
      (accepts : (robot_id : String) (now : Time)
        → link (stop_command c link e cfg robot_id now) ≡ true) where
    finish-Closed :
        (task : Task) (s : Status) (now : Time) (st : EngineState)
        → Has task.id st.world
        → Closed task s st.world (finish c link e cfg task.id task.robot_id s now st).world
    unfolding finish
    finish-Closed task s now st h =
        rw stores (unfold end_task in end_task-Closed task s now st.world h)

    failed_status-cases :
        (r : TaskExecutionResult)
        → (failed_status c link e cfg r ≡ failed) ⊎ (failed_status c link e cfg r ≡ cancelled)
    unfolding failed_status
    failed_status-cases r = ground arith

    stop_robot-sent :
        (robot_id : String) (now : Time) (st : EngineState)
        → (stop_robot c link e cfg robot_id now st).world.sent
          ≡ st.world.sent ++ stop_command c link e cfg robot_id now ∷ []
    unfolding stop_robot publish_command safety_allow stop_command
    stop_robot-sent robot_id now st = rw (accepts robot_id now) refl

    conclude_failure-Concluded :
        (good : RobotState) (task : Task) (d : Details) (from : RobotState)
        (r : TaskExecutionResult) (now : Time) (st : EngineState)
        → state_of st.robots task.robot_id ≡ from
        → can_transition from error ≡ true
        → Has task.id st.world
        → Concluded good task st.world
            (conclude_failure c link e cfg task.robot_id task.id d from r now st)
    unfolding conclude_failure broadcast
    conclude_failure-Concluded good task d from r now st h k has =
        lost (failed_status c link e cfg r) (failed_status-cases r)
          (unfold stop_robot change in
            finish-Closed task (failed_status c link e cfg r) now
              (stop_robot c link e cfg task.robot_id now st3) has)
          (unfold finish stop_robot in change-state task.robot_id from error d now st h k)
          st.world.sent now (unfold finish change in stop_robot-sent task.robot_id now st3)
      where
        st1 : EngineState
        st1 = change task.robot_id error d now st

        st2 : EngineState
        st2 = broadcast c link e cfg (state_changed task.robot_id error from task.id) st1

        st3 : EngineState
        st3 = broadcast c link e cfg (navigation_failed task.robot_id task.id r.reason) st2

    pub store_result-Concluded :
        (task : Task) (target_store dest : String) (r : TaskExecutionResult) (now : Time)
        (st : EngineState)
        → state_of st.robots task.robot_id ≡ navigating
        → Has task.id st.world
        → Concluded arrived task st.world (
            handle_navigate_to_store_result c link e cfg task.robot_id task.id target_store dest r
              now st)
    unfolding handle_navigate_to_store_result broadcast
    store_result-Concluded task target_store dest r now st h has =
        elim (Bool-cases (is_completed c link e cfg r)) [
          | inl y ↦ rw y (
              reached (unfold change in finish-Closed task completed now st3 has) (
                unfold finish in
                change-state task.robot_id navigating arrived d now st h
                  (unfold can_transition in refl)))
          | inr y ↦ rw y (
              conclude_failure-Concluded arrived task
                (details task.id target_store "" dest r.reason) navigating r now st h
                (unfold can_transition in refl) has)
        ]
      where
        d : Details
        d = details task.id target_store "" dest "arrived"

        st3 : EngineState
        st3 = broadcast c link e cfg (navigation_completed task.robot_id task.id dest) (
            broadcast c link e cfg (state_changed task.robot_id arrived navigating task.id)
              (change task.robot_id arrived d now st))

    pub return_result-Concluded :
        (task : Task) (r : TaskExecutionResult) (now : Time) (st : EngineState)
        → state_of st.robots task.robot_id ≡ returning
        → Has task.id st.world
        → Concluded idle task st.world
            (handle_navigation_result c link e cfg task.robot_id task.id r now st)
    unfolding handle_navigation_result broadcast
    return_result-Concluded task r now st h has = elim (Bool-cases (is_completed c link e cfg r)) [
      | inl y ↦ rw y (
          reached (unfold change in finish-Closed task completed now st3 has) (
            unfold finish in
            change-state task.robot_id returning idle d now st h (unfold can_transition in refl)))
      | inr y ↦ rw y (
          conclude_failure-Concluded idle task (details task.id "" "" "" r.reason) returning r now
            st h (unfold can_transition in refl) has)
    ]
      where
        d : Details
        d = details task.id "" "" "" "idle"

        st3 : EngineState
        st3 = broadcast c link e cfg (robot_idle task.robot_id) (
            broadcast c link e cfg (state_changed task.robot_id idle returning task.id)
              (change task.robot_id idle d now st))
