-- ===== src/Validation.antt =====
-- internal/validation: the data of the assertions of a validation scenario (types.go, assertions.go), and
-- the checks of events (event_checks.go), states (state_checks.go) and telemetry (telemetry_checks.go). A
-- check's message and details, which are for people, are left out. What the code takes from the
-- package strings and from `float64` is the parameter `Basics`.
pub mod Evaluate
pub mod Sequence
mod Examples
use sai_aurosy.Prelude.{
  ℕ, Bool, true, false, not, ◌&&◌, ◌||◌, Option, none, some, List, [], ◌∷◌, String, ◌==◌, any,
  is_some, length, ltb, map, if◌then◌else◌,
}
use sai_aurosy.Hal.{Time}

pub record Basics (F : Type 0) : Type 0 where
  pub to_lower : String → String
  pub to_upper : String → String
  pub trim_space : String → String
  pub less : F → F → Bool
  pub plus : F → F → F
  pub tenth : F
  pub half : F

pub record Assertion : Type 0 where
  pub kind : String
  pub state : String
  pub scenario_id : String
  pub status : String
  pub events : List String
  pub event_type : String
  pub field_name : String
  pub negated : Bool
  pub reason : String

pub record CollectedEvent : Type 0 where
  pub kind : String
  pub timestamp : Time

pub record Task : Type 0 where
  pub id : String
  pub robot_id : String
  pub scenario_id : String
  pub status : String

pub record SimRobotState (F : Type 0) : Type 0 where
  pub robot_id : String
  pub online : Bool
  pub mode : String
  pub position : String
  pub distance_to_target : F

pub record TelemetrySample (F : Type 0) : Type 0 where
  pub robot_id : String
  pub online : Bool
  pub position : String
  pub target_position : String
  pub distance_to_target : Option F
  pub current_task : String
  pub timestamp : String

-- The state of the final answer of the engine stands for the whole answer.
pub record AssertionContext (F : Type 0) : Type 0 where
  pub robot_id : String
  pub events : List CollectedEvent
  pub telemetry_samples : List (TelemetrySample F)
  pub tasks : List Task
  pub final_robot_state : Option String
  pub sim_robot_state : Option (SimRobotState F)

-- The inner loop: the types after the first that is the wanted one.
unfoldable pub seek : String → List String → Option (List String)
seek want [] = none
seek want (t ∷ ts) = let rest = seek want ts in if t == want then some ts else rest

unfoldable pub follow_rest : (List String → Bool) → Option (List String) → Bool
follow_rest next none = false
follow_rest next (some ts) = next ts

unfoldable pub follow : List String → List String → Bool
unfolding seek follow_rest
follow [] ts = true
follow (want ∷ expected) ts = follow_rest (follow expected) (seek want ts)

unfoldable pub check_event_sequence : List CollectedEvent → List String → Bool
check_event_sequence collected expected = follow expected (map (λ e. e.kind) collected)

unfoldable pub is_terminal_state : String → Bool
is_terminal_state s = s == "IDLE" || s == "ERROR_STATE"

unfoldable pub is_failure_state : String → Bool
is_failure_state s = s == "ERROR_STATE"

module _ {F : Type 0} (b : Basics F) where
  unfoldable pub check_event_present : List CollectedEvent → String → Bool
  check_event_present collected event_type = any (λ e. e.kind == b.trim_space event_type) collected

  -- The switch of `CheckTelemetryFieldPresent`; `none` is an unknown field.
  unfoldable pub has_field : String → TelemetrySample F → Option Bool
  has_field name s =
      if name == "robot_id"
      then some (not (s.robot_id == ""))
      else if name == "online"
      then some true
      else if name == "position"
      then some (not (s.position == ""))
      else if name == "target_position"
      then some (not (s.target_position == ""))
      else if name == "distance_to_target"
      then some (is_some s.distance_to_target)
      else if name == "current_task"
      then some (not (s.current_task == ""))
      else if name == "timestamp"
      then some (not (s.timestamp == ""))
      else none

  -- A sample that the loops over one robot's telemetry pass over.
  unfoldable pub passed_over : String → TelemetrySample F → Bool
  passed_over robot_id s = not (robot_id == "") && not (s.robot_id == robot_id)

  unfoldable pub field_verdict : Option Bool → Bool → Bool
  field_verdict none rest = false
  field_verdict (some true) rest = true
  field_verdict (some false) rest = rest

  unfoldable pub find_field : String → String → List (TelemetrySample F) → Bool
  unfolding has_field passed_over field_verdict
  find_field name robot_id [] = false
  find_field name robot_id (s ∷ ss) =
      let rest = find_field name robot_id ss in
      if passed_over robot_id s then rest else field_verdict (has_field name s) rest

  unfoldable pub check_telemetry_field_present : List (TelemetrySample F) → String → String → Bool
  unfolding find_field
  check_telemetry_field_present samples name robot_id =
      find_field (b.to_lower name) robot_id samples

  unfoldable pub increased : Option F → F → Bool
  increased none d = false
  increased (some prev) d = b.less prev d && (b.less b.tenth prev && b.less (b.plus prev b.half) d)

  unfoldable pub progress_after : Bool → (Option F → Bool) → Option F → Option F → Bool
  unfolding increased
  progress_after skipped next prev none = next prev
  progress_after skipped next prev (some d) =
      if skipped then next prev else if increased prev d then false else next (some d)

  unfoldable pub progress : String → List (TelemetrySample F) → Option F → Bool
  unfolding progress_after passed_over
  progress robot_id [] prev = is_some prev
  progress robot_id (s ∷ ss) prev =
      progress_after (passed_over robot_id s) (progress robot_id ss) prev s.distance_to_target

  unfoldable pub check_telemetry_progression : List (TelemetrySample F) → String → Bool
  unfolding progress
  check_telemetry_progression samples robot_id = progress robot_id samples none

  unfoldable pub in_safe_stop : Option (SimRobotState F) → Bool
  in_safe_stop none = false
  in_safe_stop (some s) = s.mode == "safe_stop"

  unfoldable pub check_safe_stop_received :
      List CollectedEvent → Option (SimRobotState F) → List (TelemetrySample F) → String → Bool
  unfolding in_safe_stop passed_over
  check_safe_stop_received events sim samples robot_id =
      any (λ e. e.kind == "safe_stop") events
      || in_safe_stop sim
      || any
          (λ s.
            not (passed_over robot_id s) && (s.current_task == "idle" && ltb 1 (length samples)))
          samples
