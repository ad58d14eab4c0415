-- ===== src/Orchestration/Runner/Started.antt =====
-- What a run of a workflow starts, and how it ends.
use sai_aurosy.Prelude.{
  ◌≡◌, ◌≢◌, refl, sym, subst, ◌∙◌, ◌⊎◌, inl, inr, true, false, Option, none, some, List, [], ◌∷◌,
  ◌++◌, String, ◌==◌, eq_iff, eq_refl, arith, contains, ℕ, Bool-cases, Option-cases,
}
use sai_aurosy.Dict
use sai_aurosy.Dict.Laws.{get-put}
use sai_aurosy.Hal.{Robot, has_capability}
use sai_aurosy.Hal.Capability.{Covers, has_capability_iff}
use sai_aurosy.Tasks.Types.{Task, Status, Scenario}
use sai_aurosy.Tasks.Store as TaskStore
use sai_aurosy.Tasks.Store.{Store}
use sai_aurosy.Registry.{get_robot}
use sai_aurosy.Orchestration.{
  RobotSelector, WorkflowStep, WorkflowRun, WorkflowRunStatus, RunStore, get_run, amend,
}
use sai_aurosy.Orchestration.Runner.{
  Setup, Loop, started, first_free, robots_for, resolve_selector, pick_available_robot,
  select_robot, candidate, of_other_tenant, admit, fail, name_tenant, task_for, add_created,
  create_task, assign, with_robot, with_scenario, start_step,
}

first_free-unused :
    (required : List String) (tasks : Store) (used : List String) (rs : List Robot)
    → first_free required tasks used rs ≢ ""
    → contains used (first_free required tasks used rs) ≡ false
unfolding first_free
first_free-unused required tasks used [] n = absurd (n refl)
first_free-unused required tasks used (r ∷ rs) n = elim (Bool-cases (contains used r.id)) [
  | inl u ↦ simp u (first_free-unused required tasks used rs (simp u at n))
  | inr u ↦ elim (Bool-cases (has_capability (some r) required)) [
    | inr c ↦ simp (u, c) (first_free-unused required tasks used rs (simp (u, c) at n))
    | inl c ↦ elim (Bool-cases (TaskStore.has_running_for_robot r.id tasks)) [
      | inl h ↦ simp (u, c, h) (first_free-unused required tasks used rs (simp (u, c, h) at n))
      | inr h ↦ simp (u, c, h) refl
    ]
  ]
]

-- The run is stored with this status.
abbrev pub RunIs : String → WorkflowRunStatus → RunStore → Type 0
RunIs id status runs = (r : WorkflowRun) × (get_run id runs ≡ some r) × (r.status ≡ status)

pub amend-RunIs :
    (f : WorkflowRun → WorkflowRun) (id : String) (s s' : WorkflowRunStatus) (runs : RunStore)
    → ((r : WorkflowRun) → r.status ≡ s → (f r).status ≡ s')
    → RunIs id s runs
    → RunIs id s' (amend (Dict.get runs id) f id runs)
unfolding get_run amend
amend-RunIs f id s s' runs keep (r, g, e) =
    rw g (f r, rw (get-put runs id id (f r)) (simp (eq_refl id) refl), keep r e)

module _ (cfg : Setup) (operator_id tenant_id : String) where
  selected-unused :
      (step : WorkflowStep) (l : Loop)
      → select_robot cfg operator_id tenant_id step.robot_selector l ≢ ""
      → contains l.used (select_robot cfg operator_id tenant_id step.robot_selector l) ≡ false
  unfolding select_robot resolve_selector
  selected-unused step l = selected step.robot_selector
    where
      selected :
          (o : Option RobotSelector)
          → select_robot cfg operator_id tenant_id o l ≢ ""
          → contains l.used (select_robot cfg operator_id tenant_id o l) ≡ false
      selected none n = absurd (n refl)
      selected (some sel) n =
          first_free-unused sel.capabilities l.tasks l.used (robots_for cfg operator_id tenant_id) n

  picked-unused :
      (o : Option Scenario) (l : Loop)
      → pick_available_robot cfg operator_id tenant_id o l ≢ ""
      → contains l.used (pick_available_robot cfg operator_id tenant_id o l) ≡ false
  unfolding pick_available_robot
  picked-unused none l n = absurd (n refl)
  picked-unused (some sc) l n =
      first_free-unused sc.required_capabilities l.tasks l.used
        (robots_for cfg operator_id tenant_id) n

  candidate-unused :
      (step : WorkflowStep) (l : Loop)
      → step.robot_id ≡ ""
      → candidate cfg operator_id tenant_id step l ≢ ""
      → contains l.used (candidate cfg operator_id tenant_id step l) ≡ false
  unfolding candidate
  candidate-unused step l e n =
      elim (Bool-cases (select_robot cfg operator_id tenant_id step.robot_selector l == "")) [
        | inl s ↦ simp (e, s) (picked-unused (cfg.scenario step.scenario_id) l (simp (e, s) at n))
        | inr s ↦ simp (e, s) (selected-unused step l (simp (e, s) at n))
      ]

  -- A robot that a step names is the candidate.
  pub candidate-named :
      (step : WorkflowStep) (l : Loop)
      → step.robot_id ≢ ""
      → candidate cfg operator_id tenant_id step l ≡ step.robot_id
  unfolding candidate
  candidate-named step l n = ground (arith, eq_iff step.robot_id "")

  admit-same :
      (id : String)
      → admit cfg operator_id tenant_id id ≢ ""
      → (admit cfg operator_id tenant_id id ≡ id)
        × (tenant_id ≢ ""
            → of_other_tenant cfg operator_id tenant_id (get_robot id cfg.fleet) ≡ false)
  unfolding admit
  admit-same id n = ground (arith, eq_iff id "", eq_iff tenant_id "")

  -- A task that is right for a step, when the loop is in the state `l`.
  pub record Fits (l : Loop) (step : WorkflowStep) (task : Task) : Type 0 where
    pub robot : Robot
    pub scenario : Scenario
    pub registered : get_robot task.robot_id cfg.fleet ≡ some robot
    pub own_tenant : tenant_id ≢ "" → robot.tenant_id ≡ tenant_id
    pub known : cfg.scenario step.scenario_id ≡ some scenario
    pub able : Covers robot.capabilities scenario.required_capabilities
    pub idle : TaskStore.has_running_for_robot task.robot_id l.tasks ≡ false
    pub as_named : step.robot_id ≢ "" → task.robot_id ≡ step.robot_id
    pub unused : step.robot_id ≡ "" → contains l.used task.robot_id ≡ false
    pub same_scenario : task.scenario_id ≡ step.scenario_id
    pub waits : task.status ≡ Status.pending

  -- A round creates a task that fits, and the run stays marked as running.
  pub record Creates (l : Loop) (step : WorkflowStep) (l' : Loop) : Type 0 where
    pub task : Task
    pub fits : Fits l step task
    pub stored : l'.tasks ≡ TaskStore.create task cfg.now l.tasks
    pub listed : l'.task_ids ≡ l.task_ids ++ task.id ∷ []
    pub in_use : l'.used ≡ task.robot_id ∷ l.used

  -- The right task for a robot that passed the checks of a round.
  Fits-task_for :
      (i : ℕ) (step : WorkflowStep) (l : Loop) (id : String) (robot : Robot) (sc : Scenario)
      → candidate cfg operator_id tenant_id step l ≡ id
      → id ≢ ""
      → (tenant_id ≢ ""
          → of_other_tenant cfg operator_id tenant_id (get_robot id cfg.fleet) ≡ false)
      → cfg.scenario step.scenario_id ≡ some sc
      → get_robot id cfg.fleet ≡ some robot
      → has_capability (some robot) sc.required_capabilities ≡ true
      → TaskStore.has_running_for_robot id l.tasks ≡ false
      → Fits l step (task_for cfg operator_id tenant_id i step id robot)
  unfolding task_for of_other_tenant
  Fits-task_for i step l id robot sc chosen n own known reg able idle = record {
    robot = robot;
    scenario = sc;
    registered = reg;
    own_tenant = λ t. ground (arith, rw reg at (own t), eq_iff robot.tenant_id tenant_id);
    known = known;
    able = (has_capability_iff robot sc.required_capabilities).0 able;
    idle = idle;
    as_named = λ m. sym chosen ∙ candidate-named step l m;
    unused = λ e.
        subst (λ x. contains l.used x ≡ false) chosen
          (candidate-unused step l e (λ q. n (sym chosen ∙ q)));
    same_scenario = refl;
    waits = refl;
  }

  create_task-Creates :
      (i : ℕ) (step : WorkflowStep) (l : Loop) (id : String) (robot : Robot)
      → Fits l step (task_for cfg operator_id tenant_id i step id robot)
      → (create_task cfg operator_id tenant_id i step id robot l).1 ≡ started
      → Creates l step (create_task cfg operator_id tenant_id i step id robot l).0
  unfolding create_task fail add_created name_tenant
  create_task-Creates i step l id robot f h =
      elim (Bool-cases (cfg.takes_task (task_for cfg operator_id tenant_id i step id robot))) [
        | inr t ↦ absurd (ground (arith, t))
        | inl t ↦ simp t (named (Bool-cases (l.tenant == "")))
      ]
    where
      task : Task
      task = task_for cfg operator_id tenant_id i step id robot

      named :
          ((l.tenant == "") ≡ true) ⊎ ((l.tenant == "") ≡ false)
          → Creates l step (
              add_created cfg operator_id tenant_id i task
                (name_tenant cfg operator_id tenant_id robot l))
      named (inl e) =
          simp e (record { task = task; fits = f; stored = refl; listed = refl; in_use = refl })
      named (inr e) =
          simp e (record { task = task; fits = f; stored = refl; listed = refl; in_use = refl })

  with_scenario-Creates :
      (i : ℕ) (step : WorkflowStep) (l : Loop) (id : String) (o : Option Scenario)
      → candidate cfg operator_id tenant_id step l ≡ id
      → id ≢ ""
      → (tenant_id ≢ ""
          → of_other_tenant cfg operator_id tenant_id (get_robot id cfg.fleet) ≡ false)
      → cfg.scenario step.scenario_id ≡ o
      → (with_scenario cfg operator_id tenant_id i step id o l).1 ≡ started
      → Creates l step (with_scenario cfg operator_id tenant_id i step id o l).0
  unfolding with_scenario fail assign
  with_scenario-Creates i step l id none chosen n own known h = cc
  with_scenario-Creates i step l id (some sc) chosen n own known h =
      elim (Bool-cases (has_capability (get_robot id cfg.fleet) sc.required_capabilities)) [
        | inr c ↦ absurd (ground (arith, c))
        | inl c ↦ elim (Bool-cases (TaskStore.has_running_for_robot id l.tasks)) [
          | inl b ↦ absurd (ground (arith, c, b))
          | inr b ↦ elim (Option-cases (get_robot id cfg.fleet)) [
            | inl e ↦ absurd (ground (arith, c, b, e))
            | inr (robot, e) ↦
                let c' : has_capability (some robot) sc.required_capabilities ≡ true =
                  simp e at c in
                simp (e, c', b)
                  (create_task-Creates i step l id robot
                    (Fits-task_for i step l id robot sc chosen n own known e c' b)
                    (simp (e, c', b) at h))
          ]
        ]
      ]

  pub start_step-Creates :
      (i : ℕ) (step : WorkflowStep) (l : Loop)
      → (start_step cfg operator_id tenant_id i step l).1 ≡ started
      → Creates l step (start_step cfg operator_id tenant_id i step l).0
  unfolding start_step with_robot fail
  start_step-Creates i step l h = elim (Bool-cases (admit cfg operator_id tenant_id chosen == "")) [
    | inl e ↦ absurd (ground (arith, e))
    | inr e ↦
        let n : admit cfg operator_id tenant_id chosen ≢ "" =
          λ q. ground (arith, e, eq_iff (admit cfg operator_id tenant_id chosen) "") in
        let (same, own) = admit-same chosen n in
        simp e (
          with_scenario-Creates i step l (admit cfg operator_id tenant_id chosen)
            (cfg.scenario step.scenario_id) (sym same) n
            (λ t.
              subst (λ x. of_other_tenant cfg operator_id tenant_id (get_robot x cfg.fleet) ≡ false)
                (sym same) (own t))
            refl (simp e at h))
  ]
    where
      chosen : String
      chosen = candidate cfg operator_id tenant_id step l
