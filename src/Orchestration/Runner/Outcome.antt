-- ===== src/Orchestration/Runner/Outcome.antt =====
-- What `Run` returns and leaves in the stores.
use sai_aurosy.Prelude.{
  ◌≡◌, ◌≢◌, refl, ap, ◌∙◌, true, false, none, some, List, [], ◌∷◌, ◌++◌, String, ◌==◌, eq_iff,
  eq_refl, arith, if◌then◌else◌, nat_eq,
}
use sai_aurosy.Dict.Laws.{get-put}
use sai_aurosy.Hal.{Time, has_capability}
use sai_aurosy.Tasks.Types.{Scenario}
use sai_aurosy.Tasks.Store as TaskStore
use sai_aurosy.Tasks.Store.{Store}
use sai_aurosy.Registry.{get_robot}
use sai_aurosy.Orchestration.{
  WorkflowStep, Workflow, WorkflowRun, WorkflowRunStatus, RunStore, get_run, get_workflow,
  create_run,
}
use sai_aurosy.Orchestration.Runner.{
  Setup, Loop, Verdict, started, stopped, panicked, Result, run_result, crashed, opened, result_of,
  new_run, run, run_workflow, start_steps, start_step, after_step, candidate, admit, with_robot,
  with_scenario, assign, of_other_tenant,
}
use sai_aurosy.Orchestration.Runner.Started.{RunIs, candidate-named}
use sai_aurosy.Orchestration.Runner.Ended.{
  IsRunning, IsUnregistered, Starts, Ends, all_started, cut_short, nil_robot, start_steps-Split,
}

create_run-RunIs :
    (r : WorkflowRun) (now : Time) (runs : RunStore) → RunIs r.id r.status (create_run r now runs)
unfolding create_run get_run
create_run-RunIs r now runs = (
  record r {
    updated_at = now;
    created_at = if nat_eq r.created_at 0 then now else r.created_at;
    tasks = [];
  },
  ground (
    arith,
    get-put runs r.id r.id (record r {
      updated_at = now;
      created_at = if nat_eq r.created_at 0 then now else r.created_at;
      tasks = [];
    }),
    eq_refl r.id,
  ),
  refl,
)

module _ (cfg : Setup) (operator_id tenant_id : String) where
  -- What `Run` returns when the steps before the ones given were started and led to the state `l`.
  pub data Concludes (l : Loop) : List WorkflowStep → (RunStore × Store) × Result → Type 0 where
    complete :
        {r : (RunStore × Store) × Result}
        → r ≡ ((l.runs, l.tasks), run_result cfg.run_id l.task_ids)
        → RunIs cfg.run_id WorkflowRunStatus.running l.runs
        → Concludes l [] r
    partial :
        {step : WorkflowStep} {steps : List WorkflowStep} {r : (RunStore × Store) × Result}
        → r.1 ≡ run_result cfg.run_id l.task_ids
        → r.0.1 ≡ l.tasks
        → RunIs cfg.run_id WorkflowRunStatus.failed r.0.0
        → Concludes l (step ∷ steps) r
    crash :
        {step : WorkflowStep} {steps : List WorkflowStep} {r : (RunStore × Store) × Result}
        → r.1 ≡ crashed
        → r.0.1 ≡ l.tasks
        → RunIs cfg.run_id WorkflowRunStatus.running r.0.0
        → IsUnregistered cfg operator_id tenant_id l step
        → Concludes l (step ∷ steps) r

  Concludes-result_of :
      (l : Loop) (rest : List WorkflowStep) (r : Loop × Verdict)
      → Ends cfg operator_id tenant_id l rest r
      → Concludes l rest (result_of cfg operator_id tenant_id r)
  unfolding result_of
  Concludes-result_of l rest (l', started) (all_started m e) =
      complete (simp (ap (λ x. x.0) e) refl) m
  Concludes-result_of l rest (l', stopped) (all_started m e) = absurd (cc (ap (λ x. x.1) e))
  Concludes-result_of l rest (l', panicked) (all_started m e) = absurd (cc (ap (λ x. x.1) e))
  Concludes-result_of l rest (l', started) (cut_short e t ids m) = absurd (cc e)
  Concludes-result_of l rest (l', stopped) (cut_short e t ids m) =
      partial (ap (run_result cfg.run_id) ids) t m
  Concludes-result_of l rest (l', panicked) (cut_short e t ids m) = absurd (cc e)
  Concludes-result_of l rest (l', started) (nil_robot e t m u) = absurd (cc e)
  Concludes-result_of l rest (l', stopped) (nil_robot e t m u) = absurd (cc e)
  Concludes-result_of l rest (l', panicked) (nil_robot e t m u) = crash refl t m u

  opened-IsRunning :
      (workflow_id : String) (runs : RunStore) (tasks : Store)
      → IsRunning cfg operator_id tenant_id
          (opened cfg operator_id tenant_id workflow_id runs tasks)
  unfolding opened new_run
  opened-IsRunning workflow_id runs tasks =
      create_run-RunIs (new_run cfg operator_id tenant_id workflow_id) cfg.now runs

  -- A workflow that is found, and whose run the store accepts, has a first part whose steps were
  -- started.
  pub run-Concludes :
      (workflow_id : String) (wf : Workflow) (runs : RunStore) (tasks : Store)
      → get_workflow workflow_id cfg.workflows ≡ some wf
      → cfg.takes_run (new_run cfg operator_id tenant_id workflow_id) ≡ true
      → (done rest : List WorkflowStep) × (l : Loop) × (wf.steps ≡ done ++ rest)
        × Starts cfg operator_id tenant_id 0
            (opened cfg operator_id tenant_id workflow_id runs tasks)
            done
            l
        × Concludes l rest (run cfg operator_id tenant_id workflow_id runs tasks)
  unfolding run run_workflow
  run-Concludes workflow_id wf runs tasks found taken =
      let (done, rest, l, q, st, en) =
        start_steps-Split cfg operator_id tenant_id 0 wf.steps
          (opened cfg operator_id tenant_id workflow_id runs tasks)
          (opened-IsRunning workflow_id runs tasks) in
      (done, rest, l, q, st, simp (found, taken) (Concludes-result_of l rest _ en))

  admit-unregistered :
      (id : String) → get_robot id cfg.fleet ≡ none → admit cfg operator_id tenant_id id ≡ id
  unfolding admit of_other_tenant
  admit-unregistered id missing = ground (arith, missing)

  with_scenario-panicked :
      (step : WorkflowStep) (l : Loop) (id : String) (sc : Scenario)
      → get_robot id cfg.fleet ≡ none
      → TaskStore.has_running_for_robot id l.tasks ≡ false
      → with_scenario cfg operator_id tenant_id 0 step id (some sc) l ≡ (l, panicked)
  unfolding with_scenario assign has_capability
  with_scenario-panicked step l id sc missing idle = simp (missing, idle) refl

  start_step-panicked :
      (step : WorkflowStep) (l : Loop) (sc : Scenario)
      → step.robot_id ≢ ""
      → get_robot step.robot_id cfg.fleet ≡ none
      → cfg.scenario step.scenario_id ≡ some sc
      → TaskStore.has_running_for_robot step.robot_id l.tasks ≡ false
      → start_step cfg operator_id tenant_id 0 step l ≡ (l, panicked)
  unfolding start_step with_robot
  start_step-panicked step l sc named missing known idle =
      let b : (step.robot_id == "") ≡ false = ground (arith, eq_iff step.robot_id "") in
      let chosen : admit cfg operator_id tenant_id (candidate cfg operator_id tenant_id step l)
          ≡ step.robot_id =
        ap (admit cfg operator_id tenant_id)
          (candidate-named cfg operator_id tenant_id step l named)
        ∙ admit-unregistered step.robot_id missing in
      ap (λ x. with_robot cfg operator_id tenant_id 0 step x l) chosen
      ∙ simp (b, known) (with_scenario-panicked step l step.robot_id sc missing idle)

  -- If the first step names a robot that is not registered, `Run` panics with a nil robot and leaves
  -- the run marked as running.
  pub run-crashed :
      (workflow_id : String) (wf : Workflow) (step : WorkflowStep) (steps : List WorkflowStep)
      (sc : Scenario) (runs : RunStore) (tasks : Store)
      → get_workflow workflow_id cfg.workflows ≡ some wf
      → cfg.takes_run (new_run cfg operator_id tenant_id workflow_id) ≡ true
      → wf.steps ≡ step ∷ steps
      → step.robot_id ≢ ""
      → get_robot step.robot_id cfg.fleet ≡ none
      → cfg.scenario step.scenario_id ≡ some sc
      → TaskStore.has_running_for_robot step.robot_id tasks ≡ false
      → ((run cfg operator_id tenant_id workflow_id runs tasks).1 ≡ crashed)
        × RunIs cfg.run_id WorkflowRunStatus.running
            (run cfg operator_id tenant_id workflow_id runs tasks).0.0
  unfolding run run_workflow start_steps after_step result_of
  run-crashed workflow_id wf step steps sc runs tasks found taken first named missing known idle =
      simp
        (
          found,
          taken,
          first,
          start_step-panicked step (opened cfg operator_id tenant_id workflow_id runs tasks) sc
              named missing known idle,
        )
        (refl, opened-IsRunning workflow_id runs tasks)
