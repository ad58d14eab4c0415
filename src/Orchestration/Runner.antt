-- ===== src/Orchestration/Runner.antt =====
-- pkg/control-plane/orchestration/runner.go: `Run`, which starts a workflow by a task for each step.
-- `Setup` holds what the runner is made with: the catalogs, the fleet registry, whether a store
-- accepts a new run or task (the SQL stores can refuse them), the fresh identifiers, and the JSON of
-- a zone's payload. One time stands for the clock readings of a run.
pub mod Started
pub mod Ended
pub mod Outcome
use sai_aurosy.Prelude.{
  ℕ, suc, Bool, true, false, not, ◌&&◌, Option, none, some, List, [], ◌∷◌, ◌++◌, String, ◌==◌,
  contains, if◌then◌else◌,
}
use sai_aurosy.Hal.{Time, Robot, has_capability}
use sai_aurosy.Tasks.Types.{Task, Status, Scenario}
use sai_aurosy.Tasks.Store as TaskStore
use sai_aurosy.Tasks.Store.{Store}
use sai_aurosy.Registry.{Fleet, get_robot, list_robots, list_by_tenant}
use sai_aurosy.Orchestration.{
  RobotSelector, WorkflowStep, Workflow, WorkflowRun, WorkflowRunStatus, Catalog, RunStore,
  get_workflow, create_run, update_run_status, update_tenant_id, add_task,
}

pub record Setup : Type 0 where
  pub workflows : Catalog
  pub scenario : String → Option Scenario
  pub fleet : Fleet
  pub takes_run : WorkflowRun → Bool
  pub takes_task : Task → Bool
  pub run_id : String
  pub task_id : ℕ → String
  pub zone_payload : String → String
  pub now : Time

-- The two stores, and the local variables of `Run` that its loop changes: the tenant of its copy of
-- the run, the identifiers of the tasks, and the robots in use.
pub record Loop : Type 0 where
  pub runs : RunStore
  pub tasks : Store
  pub tenant : String
  pub task_ids : List String
  pub used : List String

-- The loop ran through, or returned early, or a nil robot was dereferenced.
pub data Verdict : Type 0 where
  started stopped panicked : Verdict

pub data Result : Type 0 where
  not_found refused crashed : Result
  run_result : String → List String → Result

-- The loop of `resolveSelector` and of `pickAvailableRobot`.
unfoldable pub first_free : List String → Store → List String → List Robot → String
first_free required tasks used [] = ""
first_free required tasks used (r ∷ rs) =
    let rest = first_free required tasks used rs in
    if contains used r.id
    then rest
    else if not (has_capability (some r) required)
    then rest
    else if TaskStore.has_running_for_robot r.id tasks
    then rest
    else r.id

module _ (cfg : Setup) (operator_id tenant_id : String) where
  unfoldable pub robots_for : List Robot
  robots_for =
      if not (tenant_id == "") then list_by_tenant tenant_id cfg.fleet else list_robots cfg.fleet

  unfoldable pub resolve_selector : RobotSelector → Loop → String
  resolve_selector sel l = first_free sel.capabilities l.tasks l.used robots_for

  unfoldable pub pick_available_robot : Option Scenario → Loop → String
  pick_available_robot none l = ""
  pick_available_robot (some sc) l = first_free sc.required_capabilities l.tasks l.used robots_for

  unfoldable pub select_robot : Option RobotSelector → Loop → String
  unfolding resolve_selector
  select_robot none l = ""
  select_robot (some sel) l = resolve_selector sel l

  -- The first two tests of a round.
  unfoldable pub candidate : WorkflowStep → Loop → String
  unfolding select_robot pick_available_robot
  candidate step l =
      let robot_id =
        if step.robot_id == "" then select_robot step.robot_selector l else step.robot_id in
      if robot_id == "" then pick_available_robot (cfg.scenario step.scenario_id) l else robot_id

  unfoldable pub of_other_tenant : Option Robot → Bool
  of_other_tenant none = false
  of_other_tenant (some robot) = not (robot.tenant_id == tenant_id)

  -- A robot of another tenant is rejected.
  unfoldable pub admit : String → String
  unfolding of_other_tenant
  admit robot_id =
      if (not (robot_id == "") && not (tenant_id == ""))
        && of_other_tenant (get_robot robot_id cfg.fleet)
      then ""
      else robot_id

  unfoldable pub fail : Loop → Loop × Verdict
  fail l = (
    record l { runs = update_run_status cfg.run_id WorkflowRunStatus.failed cfg.now l.runs },
    stopped,
  )

  unfoldable pub or_default : String → String
  or_default t = if t == "" then "default" else t

  -- The tenant of the run is that of its first robot.
  unfoldable pub name_tenant : Robot → Loop → Loop
  unfolding or_default
  name_tenant robot l =
      if l.tenant == ""
      then record l {
        tenant = or_default robot.tenant_id;
        runs = update_tenant_id cfg.run_id (or_default robot.tenant_id) cfg.now l.runs;
      }
      else l

  unfoldable pub task_for : ℕ → WorkflowStep → String → Robot → Task
  unfolding or_default
  task_for i step robot_id robot = record {
    id = cfg.task_id i;
    robot_id = robot_id;
    tenant_id = or_default robot.tenant_id;
    kind = "scenario";
    scenario_id = step.scenario_id;
    payload =
        if step.payload == "" && not (step.zone_id == "")
        then cfg.zone_payload step.zone_id
        else step.payload;
    status = Status.pending;
    created_at = 0;
    updated_at = 0;
    completed_at = none;
    operator_id = operator_id;
  }

  unfoldable pub add_created : ℕ → Task → Loop → Loop
  add_created i t l = record l {
    tasks = TaskStore.create t cfg.now l.tasks;
    runs = add_task cfg.run_id t.id i cfg.now l.runs;
    task_ids = l.task_ids ++ t.id ∷ [];
    used = t.robot_id ∷ l.used;
  }

  unfoldable pub create_task : ℕ → WorkflowStep → String → Robot → Loop → Loop × Verdict
  unfolding name_tenant task_for fail add_created
  create_task i step robot_id robot l =
      let t = task_for i step robot_id robot in
      let named = name_tenant robot l in
      if not (cfg.takes_task t) then fail named else (add_created i t named, started)

  -- From line 112: `robot.TenantID` of a nil robot panics.
  unfoldable pub assign : ℕ → WorkflowStep → String → Option Robot → Loop → Loop × Verdict
  unfolding create_task
  assign i step robot_id none l = (l, panicked)
  assign i step robot_id (some robot) l = create_task i step robot_id robot l

  unfoldable pub with_scenario : ℕ → WorkflowStep → String → Option Scenario → Loop → Loop × Verdict
  unfolding assign fail
  with_scenario i step robot_id none l = fail l
  with_scenario i step robot_id (some sc) l =
      let robot = get_robot robot_id cfg.fleet in
      if not (has_capability robot sc.required_capabilities)
      then fail l
      else if TaskStore.has_running_for_robot robot_id l.tasks
      then fail l
      else assign i step robot_id robot l

  unfoldable pub with_robot : ℕ → WorkflowStep → String → Loop → Loop × Verdict
  unfolding with_scenario fail
  with_robot i step robot_id l =
      if robot_id == ""
      then fail l
      else with_scenario i step robot_id (cfg.scenario step.scenario_id) l

  -- One round of the loop.
  unfoldable pub start_step : ℕ → WorkflowStep → Loop → Loop × Verdict
  unfolding candidate admit with_robot
  start_step i step l = with_robot i step (admit (candidate step l)) l

  unfoldable pub after_step : (Loop → Loop × Verdict) → Loop × Verdict → Loop × Verdict
  after_step next (l, started) = next l
  after_step next (l, stopped) = (l, stopped)
  after_step next (l, panicked) = (l, panicked)

  unfoldable pub start_steps : ℕ → List WorkflowStep → Loop → Loop × Verdict
  unfolding after_step start_step
  start_steps i [] l = (l, started)
  start_steps i (step ∷ steps) l = after_step (start_steps (suc i) steps) (start_step i step l)

  unfoldable pub result_of : Loop × Verdict → (RunStore × Store) × Result
  result_of (l, started) = ((l.runs, l.tasks), run_result cfg.run_id l.task_ids)
  result_of (l, stopped) = ((l.runs, l.tasks), run_result cfg.run_id l.task_ids)
  result_of (l, panicked) = ((l.runs, l.tasks), crashed)

  unfoldable pub new_run : String → WorkflowRun
  new_run workflow_id = record {
    id = cfg.run_id;
    workflow_id = workflow_id;
    tenant_id = "";
    status = WorkflowRunStatus.running;
    created_at = 0;
    updated_at = 0;
    tasks = [];
  }

  unfoldable pub opened : String → RunStore → Store → Loop
  unfolding new_run
  opened workflow_id runs tasks = record {
    runs = create_run (new_run workflow_id) cfg.now runs;
    tasks = tasks;
    tenant = "";
    task_ids = [];
    used = [];
  }

  unfoldable pub run_workflow :
      String → Option Workflow → RunStore → Store → (RunStore × Store) × Result
  unfolding opened start_steps result_of new_run
  run_workflow workflow_id none runs tasks = ((runs, tasks), not_found)
  run_workflow workflow_id (some wf) runs tasks =
      if not (cfg.takes_run (new_run workflow_id))
      then ((runs, tasks), refused)
      else result_of (start_steps 0 wf.steps (opened workflow_id runs tasks))

  unfoldable pub run : String → RunStore → Store → (RunStore × Store) × Result
  unfolding run_workflow
  run workflow_id runs tasks =
      run_workflow workflow_id (get_workflow workflow_id cfg.workflows) runs tasks
