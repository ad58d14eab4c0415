-- ===== src/Validation/Evaluate.antt =====
-- internal/validation/assertions.go: the evaluation of an assertion. A check's message and details are
-- left out.
use sai_aurosy.Prelude.{
  Bool, false, not, ◌&&◌, Option, none, some, List, [], ◌∷◌, String, ◌==◌, any, if◌then◌else◌,
}
use sai_aurosy.Validation.{
  Basics, Assertion, Task, AssertionContext, check_event_sequence, check_event_present,
  check_telemetry_field_present, check_telemetry_progression, check_safe_stop_received,
}

module _ {F : Type 0} (b : Basics F) where
  unfoldable pub same_state : String → Option String → Bool
  same_state expected none = false
  same_state expected (some s) = b.to_upper s == expected

  unfoldable pub check_final_robot_state : Assertion → AssertionContext F → Bool
  unfolding same_state
  check_final_robot_state a ctx =
      let expected = b.to_upper a.state in
      same_state (if expected == "" then "IDLE" else expected) ctx.final_robot_state

  -- The first task of the robot, and of the scenario if one is named, decides.
  unfoldable pub first_task : String → String → String → List Task → Bool
  first_task scenario_id robot_id expected [] = false
  first_task scenario_id robot_id expected (t ∷ ts) =
      let rest = first_task scenario_id robot_id expected ts in
      if not (scenario_id == "") && not (t.scenario_id == scenario_id)
      then rest
      else if not (t.robot_id == robot_id)
      then rest
      else b.to_lower t.status == expected

  unfoldable pub check_task_status : Assertion → AssertionContext F → Bool
  unfolding first_task
  check_task_status a ctx =
      let status = b.to_lower a.status in
      first_task a.scenario_id ctx.robot_id (if status == "" then "completed" else status) ctx.tasks

  unfoldable pub named_event : Assertion → String
  named_event a = elim a.events [
    | [] ↦ a.event_type
    | e ∷ es ↦ if a.event_type == "" then e else a.event_type
  ]

  unfoldable pub check_named_event : Assertion → AssertionContext F → Bool
  unfolding named_event check_event_present
  check_named_event a ctx =
      if named_event a == "" then false else check_event_present b ctx.events (named_event a)

  unfoldable pub check_no_navigation_task : AssertionContext F → Bool
  check_no_navigation_task ctx =
      not (any (λ t. t.scenario_id == "navigate_to_store" && t.robot_id == ctx.robot_id) ctx.tasks)

  unfoldable pub check_named_field : Assertion → AssertionContext F → Bool
  unfolding check_telemetry_field_present
  check_named_field a ctx =
      if a.field_name == ""
      then false
      else check_telemetry_field_present b ctx.telemetry_samples a.field_name ctx.robot_id

  -- Both branches of `checkRobotOfflineFailure` that find a failed task pass.
  unfoldable pub has_failed_task : AssertionContext F → Bool
  has_failed_task ctx = any (λ t. t.robot_id == ctx.robot_id && t.status == "failed") ctx.tasks

  unfoldable pub check_kind : Assertion → AssertionContext F → Bool
  unfolding check_event_sequence
  check_kind a ctx =
      if a.kind == "final_robot_state"
      then check_final_robot_state a ctx
      else if a.kind == "task_status"
      then check_task_status a ctx
      else if a.kind == "event_sequence"
      then check_event_sequence ctx.events a.events
      else if a.kind == "event_present"
      then check_named_event a ctx
      else if a.kind == "no_navigation_task_created"
      then check_no_navigation_task ctx
      else if a.kind == "telemetry_field_present"
      then check_named_field a ctx
      else if a.kind == "telemetry_progression"
      then check_telemetry_progression b ctx.telemetry_samples ctx.robot_id
      else if a.kind == "timeout_triggered"
      then has_failed_task ctx
      else if a.kind == "safe_stop_received"
      then check_safe_stop_received b ctx.events ctx.sim_robot_state ctx.telemetry_samples
          ctx.robot_id
      else if a.kind == "robot_offline_causes_failure"
      then has_failed_task ctx
      else false

  unfoldable pub evaluate_assertion : Assertion → AssertionContext F → Bool
  unfolding check_kind
  evaluate_assertion a ctx = if a.negated then not (check_kind a ctx) else check_kind a ctx
