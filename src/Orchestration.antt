-- ===== src/Orchestration.antt =====
-- pkg/control-plane/orchestration: workflows (types.go), their catalog (catalog.go) and the store of
-- their runs in memory (store.go). The methods of the store run under the mutex, return copies and
-- no error; the time that a method reads is an argument.
pub mod Runner
mod Examples
use sai_aurosy.Prelude.{ℕ, Option, none, some, List, [], ◌∷◌, ◌++◌, String, nat_eq, if◌then◌else◌}
use sai_aurosy.Dict
use sai_aurosy.Dict.{Dict}
use sai_aurosy.Hal.{Time}

pub record RobotSelector : Type 0 where
  pub capabilities : List String
  pub zone_preference : String

-- An empty text for a robot or a zone, and an empty payload, are those that were left out.
pub record WorkflowStep : Type 0 where
  pub robot_id : String
  pub robot_selector : Option RobotSelector
  pub scenario_id : String
  pub payload : String
  pub zone_id : String

pub record Workflow : Type 0 where
  pub id : String
  pub name : String
  pub description : String
  pub steps : List WorkflowStep

pub data WorkflowRunStatus : Type 0 where
  pending running completed failed cancelled : WorkflowRunStatus

pub record WorkflowRunTask : Type 0 where
  pub task_id : String
  pub step_index : ℕ

pub record WorkflowRun : Type 0 where
  pub id : String
  pub workflow_id : String
  pub tenant_id : String
  pub status : WorkflowRunStatus
  pub created_at : Time
  pub updated_at : Time
  pub tasks : List WorkflowRunTask

abbrev pub Catalog : Type 0
Catalog = Dict Workflow

unfoldable pub get_workflow : String → Catalog → Option Workflow
get_workflow id cat = Dict.get cat id

unfoldable pub list_workflows : Catalog → List Workflow
list_workflows cat = Dict.values cat

unfoldable pub register : Workflow → Catalog → Catalog
register w cat = Dict.put cat w.id w

abbrev pub RunStore : Type 0
RunStore = Dict WorkflowRun

unfoldable pub create_run : WorkflowRun → Time → RunStore → RunStore
create_run run now runs = Dict.put runs run.id (record run {
  updated_at = now;
  created_at = if nat_eq run.created_at 0 then now else run.created_at;
  tasks = [];
})

unfoldable pub list_runs : RunStore → List WorkflowRun
list_runs runs = Dict.values runs

unfoldable pub get_run : String → RunStore → Option WorkflowRun
get_run id runs = Dict.get runs id

-- `if r, ok := s.runs[id]; ok { ... }`
unfoldable pub amend :
    Option WorkflowRun → (WorkflowRun → WorkflowRun) → String → RunStore → RunStore
amend none f id runs = runs
amend (some r) f id runs = Dict.put runs id (f r)

unfoldable pub update_run_status : String → WorkflowRunStatus → Time → RunStore → RunStore
unfolding amend
update_run_status id status now runs =
    amend (Dict.get runs id) (λ r. record r { status = status; updated_at = now }) id runs

unfoldable pub update_tenant_id : String → String → Time → RunStore → RunStore
unfolding amend
update_tenant_id id tenant_id now runs =
    amend (Dict.get runs id) (λ r. record r { tenant_id = tenant_id; updated_at = now }) id runs

unfoldable pub add_task : String → String → ℕ → Time → RunStore → RunStore
unfolding amend
add_task id task_id step_index now runs =
    amend (Dict.get runs id)
      (λ r. record r {
        tasks = r.tasks ++ record { task_id = task_id; step_index = step_index } ∷ [];
        updated_at = now;
      })
      id runs
