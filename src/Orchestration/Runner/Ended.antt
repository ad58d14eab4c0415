-- ===== src/Orchestration/Runner/Ended.antt =====
-- How a run of a workflow ends: with all steps started, cut short, or with a panic.
use sai_aurosy.Prelude.{
  ◌≡◌, ◌≢◌, refl, ap, inl, inr, Option, none, some, List, [], ◌∷◌, ◌++◌, String, ◌==◌, arith, ℕ,
  suc, Bool-cases, Option-cases,
}
use sai_aurosy.Hal.{Robot, has_capability}
use sai_aurosy.Tasks.Types.{Scenario}
use sai_aurosy.Tasks.Store as TaskStore
use sai_aurosy.Tasks.Store.{Store}
use sai_aurosy.Registry.{get_robot}
use sai_aurosy.Orchestration.{
  WorkflowStep, WorkflowRunStatus, update_run_status, update_tenant_id, add_task,
}
use sai_aurosy.Orchestration.Runner.{
  Setup, Loop, Verdict, started, stopped, panicked, candidate, admit, fail, name_tenant, task_for,
  add_created, create_task, assign, with_robot, with_scenario, start_step, after_step, start_steps,
}
use sai_aurosy.Orchestration.Runner.Started.{RunIs, amend-RunIs, Creates, start_step-Creates}

-- The status that a run has after a round with this verdict.
abbrev status_after : Verdict → WorkflowRunStatus
status_after started = WorkflowRunStatus.running
status_after stopped = WorkflowRunStatus.failed
status_after panicked = WorkflowRunStatus.running

module _ (cfg : Setup) (operator_id tenant_id : String) where
  abbrev Marked : Loop × Verdict → Type 0
  Marked (l, v) = RunIs cfg.run_id (status_after v) l.runs

  abbrev pub IsRunning : Loop → Type 0
  IsRunning l = RunIs cfg.run_id WorkflowRunStatus.running l.runs

  fail-Marked : (l : Loop) → IsRunning l → Marked (fail cfg operator_id tenant_id l)
  unfolding fail update_run_status
  fail-Marked l m = amend-RunIs _ cfg.run_id WorkflowRunStatus.running _ l.runs (λ r e. refl) m

  name_tenant-IsRunning :
      (robot : Robot) (l : Loop)
      → IsRunning l
      → IsRunning (name_tenant cfg operator_id tenant_id robot l)
  unfolding name_tenant update_tenant_id
  name_tenant-IsRunning robot l m = elim (Bool-cases (l.tenant == "")) [
    | inl e ↦ simp e (amend-RunIs _ cfg.run_id WorkflowRunStatus.running _ l.runs (λ r q. q) m)
    | inr e ↦ simp e m
  ]

  create_task-Marked :
      (i : ℕ) (step : WorkflowStep) (l : Loop) (id : String) (robot : Robot)
      → IsRunning l
      → Marked (create_task cfg operator_id tenant_id i step id robot l)
  unfolding create_task add_created add_task
  create_task-Marked i step l id robot m =
      elim (Bool-cases (cfg.takes_task (task_for cfg operator_id tenant_id i step id robot))) [
        | inl t ↦
            simp t
              (amend-RunIs _ cfg.run_id WorkflowRunStatus.running _ named.runs (λ r q. q) running)
        | inr t ↦ simp t (fail-Marked named running)
      ]
    where
      named : Loop
      named = name_tenant cfg operator_id tenant_id robot l

      running : IsRunning named
      running = name_tenant-IsRunning robot l m

  with_scenario-Marked :
      (i : ℕ) (step : WorkflowStep) (l : Loop) (id : String) (o : Option Scenario)
      → IsRunning l
      → Marked (with_scenario cfg operator_id tenant_id i step id o l)
  unfolding with_scenario assign
  with_scenario-Marked i step l id none m = fail-Marked l m
  with_scenario-Marked i step l id (some sc) m =
      elim (Bool-cases (has_capability (get_robot id cfg.fleet) sc.required_capabilities)) [
        | inr c ↦ simp c (fail-Marked l m)
        | inl c ↦ elim (Bool-cases (TaskStore.has_running_for_robot id l.tasks)) [
          | inl b ↦ simp (c, b) (fail-Marked l m)
          | inr b ↦ simp (c, b) (assigned (get_robot id cfg.fleet))
        ]
      ]
    where
      assigned : (o : Option Robot) → Marked (assign cfg operator_id tenant_id i step id o l)
      assigned none = m
      assigned (some robot) = create_task-Marked i step l id robot m

  start_step-Marked :
      (i : ℕ) (step : WorkflowStep) (l : Loop)
      → IsRunning l
      → Marked (start_step cfg operator_id tenant_id i step l)
  unfolding start_step with_robot
  start_step-Marked i step l m =
      elim (Bool-cases
        (admit cfg operator_id tenant_id (candidate cfg operator_id tenant_id step l) == "")) [
          | inl e ↦ simp e (fail-Marked l m)
          | inr e ↦ simp e (with_scenario-Marked i step l _ (cfg.scenario step.scenario_id) m)
        ]

  -- The robot that is chosen for the step is not in the registry.
  abbrev pub IsUnregistered : Loop → WorkflowStep → Type 0
  IsUnregistered l step =
      get_robot (admit cfg operator_id tenant_id (candidate cfg operator_id tenant_id step l))
        cfg.fleet
      ≡ none

  create_task-runs :
      (i : ℕ) (step : WorkflowStep) (l : Loop) (id : String) (robot : Robot)
      → (create_task cfg operator_id tenant_id i step id robot l).1 ≢ panicked
  unfolding create_task fail
  create_task-runs i step l id robot h = ground arith

  -- What a round that does not go on leaves: the tasks as they were.
  start_step-tasks :
      (i : ℕ) (step : WorkflowStep) (l : Loop)
      → (start_step cfg operator_id tenant_id i step l).1 ≢ started
      → ((start_step cfg operator_id tenant_id i step l).0.tasks ≡ l.tasks)
        × ((start_step cfg operator_id tenant_id i step l).0.task_ids ≡ l.task_ids)
  unfolding start_step with_robot with_scenario assign create_task name_tenant fail
  start_step-tasks i step l h = ground arith

  start_step-panics :
      (i : ℕ) (step : WorkflowStep) (l : Loop)
      → (start_step cfg operator_id tenant_id i step l).1 ≡ panicked
      → IsUnregistered l step
  unfolding start_step with_robot with_scenario assign fail
  start_step-panics i step l h = elim (Option-cases (get_robot id cfg.fleet)) [
    | inl e ↦ e
    | inr (robot, e) ↦ absurd (ground (arith, e, create_task-runs i step l id robot))
  ]
    where
      id : String
      id = admit cfg operator_id tenant_id (candidate cfg operator_id tenant_id step l)

  -- Steps that were started in turn, from the number `i` on.
  pub data Starts : ℕ → Loop → List WorkflowStep → Loop → Type 0 where
    none_left : {i : ℕ} {l : Loop} → Starts i l [] l
    one_more :
        {i : ℕ} {l l1 l2 : Loop} {step : WorkflowStep} {steps : List WorkflowStep}
        → Creates cfg operator_id tenant_id l step l1
        → Starts (suc i) l1 steps l2
        → Starts i l (step ∷ steps) l2

  -- How the steps end, when all but the last ones given were started and led to the state `l`.
  pub data Ends (l : Loop) : List WorkflowStep → Loop × Verdict → Type 0 where
    all_started : {r : Loop × Verdict} → IsRunning l → r ≡ (l, started) → Ends l [] r
    cut_short :
        {step : WorkflowStep} {steps : List WorkflowStep} {r : Loop × Verdict}
        → r.1 ≡ stopped
        → r.0.tasks ≡ l.tasks
        → r.0.task_ids ≡ l.task_ids
        → RunIs cfg.run_id WorkflowRunStatus.failed r.0.runs
        → Ends l (step ∷ steps) r
    nil_robot :
        {step : WorkflowStep} {steps : List WorkflowStep} {r : Loop × Verdict}
        → r.1 ≡ panicked
        → r.0.tasks ≡ l.tasks
        → RunIs cfg.run_id WorkflowRunStatus.running r.0.runs
        → IsUnregistered l step
        → Ends l (step ∷ steps) r

  abbrev pub Split : ℕ → Loop → List WorkflowStep → Loop × Verdict → Type 0
  Split i l steps r =
      (done rest : List WorkflowStep) × (l' : Loop) × (steps ≡ done ++ rest)
      × Starts i l done l'
      × Ends l' rest r

  after_step-Split :
      (i : ℕ) (step : WorkflowStep) (steps : List WorkflowStep) (l : Loop)
      → IsRunning l
      → ((l' : Loop)
          → IsRunning l'
          → Split (suc i) l' steps (start_steps cfg operator_id tenant_id (suc i) steps l'))
      → (r : Loop × Verdict) → start_step cfg operator_id tenant_id i step l ≡ r
      → Split i l (step ∷ steps) (
          after_step cfg operator_id tenant_id
            (start_steps cfg operator_id tenant_id (suc i) steps)
            r)
  unfolding after_step
  after_step-Split i step steps l m next (l1, started) e =
      let made : Creates cfg operator_id tenant_id l step l1 =
        simp e at (start_step-Creates cfg operator_id tenant_id i step l (ap (λ x. x.1) e)) in
      let (done, rest, l2, q, st, en) = next l1 (simp e at (start_step-Marked i step l m)) in
      (step ∷ done, rest, l2, ap (λ x. step ∷ x) q, one_more made st, en)
  after_step-Split i step steps l m next (l1, stopped) e =
      let (t, ids) = start_step-tasks i step l (simp e (ground arith)) in
      (
        [],
        step ∷ steps,
        l,
        refl,
        none_left,
        cut_short refl (simp e at t) (simp e at ids) (simp e at (start_step-Marked i step l m)),
      )
  after_step-Split i step steps l m next (l1, panicked) e =
      let (t, ids) = start_step-tasks i step l (simp e (ground arith)) in
      (
        [],
        step ∷ steps,
        l,
        refl,
        none_left,
        nil_robot refl (simp e at t) (simp e at (start_step-Marked i step l m))
            (start_step-panics i step l (ap (λ x. x.1) e)),
      )

  pub start_steps-Split :
      (i : ℕ) (steps : List WorkflowStep) (l : Loop)
      → IsRunning l
      → Split i l steps (start_steps cfg operator_id tenant_id i steps l)
  unfolding start_steps
  start_steps-Split i [] l m = ([], [], l, refl, none_left, all_started m refl)
  start_steps-Split i (step ∷ steps) l m =
      after_step-Split i step steps l m (λ l' m'. start_steps-Split (suc i) steps l' m')
        (start_step cfg operator_id tenant_id i step l) refl
