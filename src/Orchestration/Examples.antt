-- ===== src/Orchestration/Examples.antt =====
-- A workflow of two patrols: one for a free robot, one for a robot that is not registered.
use sai_aurosy.Prelude.{
  ◌≡◌, refl, true, none, some, List, [], ◌∷◌, ◌++◌, String, ◌==◌, arith, if◌then◌else◌, eq_iff,
}
use sai_aurosy.Dict
use sai_aurosy.Hal.{Robot}
use sai_aurosy.Tasks.Types.{Scenario}
use sai_aurosy.Tasks.Store as TaskStore
use sai_aurosy.Registry.{get_robot}
use sai_aurosy.Orchestration.{WorkflowStep, Workflow, WorkflowRunStatus, get_workflow}
use sai_aurosy.Orchestration.Runner.{Setup, Loop, run, opened, crashed}
use sai_aurosy.Orchestration.Runner.Started.{RunIs}
use sai_aurosy.Orchestration.Runner.Ended.{Starts}
use sai_aurosy.Orchestration.Runner.Outcome.{Concludes, run-Concludes, run-crashed}

abbrev scout : Robot
scout = record {
  id = "r1";
  vendor = "agibot";
  model = "x1";
  adapter_endpoint = "";
  tenant_id = "t1";
  edge_id = "";
  location = "";
  capabilities = "walk" ∷ "patrol" ∷ [];
  created_at = 1;
  updated_at = 1;
}

abbrev patrol : Scenario
patrol = record {
  id = "patrol";
  name = "Patrol";
  description = "";
  steps = [];
  required_capabilities = "walk" ∷ "patrol" ∷ [];
}

abbrev zone_step : String → String → WorkflowStep
zone_step robot_id zone_id = record {
  robot_id = robot_id;
  robot_selector = none;
  scenario_id = "patrol";
  payload = "";
  zone_id = zone_id;
}

abbrev two_zones : Workflow
two_zones = record {
  id = "two_zones";
  name = "Two zones";
  description = "";
  steps = zone_step "" "A" ∷ zone_step "ghost" "B" ∷ [];
}

abbrev ghost_first : Workflow
ghost_first = record {
  id = "ghost_first";
  name = "One zone";
  description = "";
  steps = zone_step "ghost" "A" ∷ [];
}

abbrev setup : Setup
setup = record {
  workflows = ("two_zones", two_zones) ∷ ("ghost_first", ghost_first) ∷ [];
  scenario = λ id. if id == "patrol" then some patrol else none;
  fleet = ("r1", scout) ∷ [];
  takes_run = λ r. true;
  takes_task = λ t. true;
  run_id = "run-1";
  task_id = λ n. "task";
  zone_payload = λ z. z;
  now = 5;
}

run-Concludes_example :
    (done rest : List WorkflowStep) × (l : Loop) × (two_zones.steps ≡ done ++ rest)
    × Starts setup "op" "" 0 (opened setup "op" "" "two_zones" [] []) done l
    × Concludes setup "op" "" l rest (run setup "op" "" "two_zones" [] [])
unfolding get_workflow Dict.get
run-Concludes_example = run-Concludes setup "op" "" "two_zones" two_zones [] [] refl refl

run-crashed_example :
    ((run setup "op" "" "ghost_first" [] []).1 ≡ crashed)
    × RunIs "run-1" WorkflowRunStatus.running (run setup "op" "" "ghost_first" [] []).0.0
unfolding get_workflow get_robot Dict.get TaskStore.has_running_for_robot Dict.values
run-crashed_example =
    run-crashed setup "op" "" "ghost_first" ghost_first (zone_step "ghost" "A") [] patrol [] [] refl
      refl refl (λ e. ground (arith, eq_iff "ghost" "")) refl refl refl
