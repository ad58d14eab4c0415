-- ===== src/Engine/Executor/Handled.antt =====
-- Which tasks the task executor handles.
use mathlib.Core.Option
use sai_aurosy.Prelude.{
  ◌≡◌, inl, inr, true, ◌||◌, Option, none, some, List, ◌==◌, arith, Bool-cases,
}
use sai_aurosy.Hal.{Command}
use sai_aurosy.Codec.{Codec}
use sai_aurosy.Telemetry.{Link}
use sai_aurosy.Tasks.Types.{Task}
use sai_aurosy.Engine.Navigation.{NavigationResult, NavigationExecutor}
use sai_aurosy.Engine.Executor.{
  TaskExecutionResult, Watch, refused, handled_result, nav_payload, run_request, execute_navigate,
  execute_navigation, execute_task,
}

module _ {F : Type 0} (c : Codec F) (link : Link) (e : NavigationExecutor F) where
  map-handled :
      (o : Option NavigationResult) (r : TaskExecutionResult)
      → Option.map handled_result o ≡ some r
      → r.handled ≡ true
  unfolding handled_result
  map-handled none r q = cc
  map-handled (some res) r q = ground arith

  execute_navigate-handled :
      (task : Task) (watch : Watch F) (sent : List Command) (r : TaskExecutionResult)
      → (execute_navigate c link e task watch sent).1 ≡ some r
      → r.handled ≡ true
  unfolding execute_navigate run_request refused
  execute_navigate-handled task watch sent r q =
      elim (Bool-cases ((nav_payload c task).target_coordinates == "")) [
        | inl y ↦
            let k : some (refused true "missing target_coordinates") ≡ some r = simp y at q in
            ground arith
        | inr y ↦ map-handled _ r (simp y at q)
      ]

  execute_navigation-handled :
      (task : Task) (watch : Watch F) (sent : List Command) (r : TaskExecutionResult)
      → (execute_navigation c link e task watch sent).1 ≡ some r
      → r.handled ≡ true
  unfolding execute_navigation run_request refused
  execute_navigation-handled task watch sent r q =
      elim (Bool-cases ((nav_payload c task).target_coordinates == "")) [
        | inl y ↦
            let k : some (refused true "missing target_coordinates") ≡ some r = simp y at q in
            ground arith
        | inr y ↦ map-handled _ r (simp y at q)
      ]

  -- A task of one of the two navigation scenarios is handled.
  pub execute_task-handled :
      (task : Task) (watch : Watch F) (sent : List Command) (r : TaskExecutionResult)
      → (task.scenario_id == "navigate_to_store" || task.scenario_id == "navigation") ≡ true
      → (execute_task c link e task watch sent).1 ≡ some r
      → r.handled ≡ true
  unfolding execute_task
  execute_task-handled task watch sent r h q =
      elim (Bool-cases (task.scenario_id == "navigate_to_store")) [
        | inl y ↦ execute_navigate-handled task watch sent r (simp y at q)
        | inr y ↦ elim (Bool-cases (task.scenario_id == "navigation")) [
          | inl z ↦ execute_navigation-handled task watch sent r (simp (y, z) at q)
          | inr z ↦ absurd (ground (arith, y, z))
        ]
      ]
