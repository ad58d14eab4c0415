-- ===== src/Tasks/Types.antt =====
-- pkg/control-plane/tasks/types.go, and the scenario types of pkg/control-plane/scenarios/catalog.go.
use sai_aurosy.Prelude.{Bool, true, false, Option, List, String}
use sai_aurosy.Prelude.Int.{ℤ}
use sai_aurosy.Hal.{Time}

pub data Status : Type 0 where
  pending running completed failed cancelled : Status

-- a == b
abbrev pub same_status : Status → Status → Bool
same_status pending pending = true
same_status running running = true
same_status completed completed = true
same_status failed failed = true
same_status cancelled cancelled = true
same_status _ _ = false

pub record Task : Type 0 where
  pub id : String
  pub robot_id : String
  pub tenant_id : String
  pub kind : String
  pub scenario_id : String
  pub payload : String
  pub status : Status
  pub created_at : Time
  pub updated_at : Time
  pub completed_at : Option Time
  pub operator_id : String

-- A duration of -1 stands for the duration in the task's payload.
pub record ScenarioStep : Type 0 where
  pub command : String
  pub payload : String
  pub duration_sec : ℤ

pub record Scenario : Type 0 where
  pub id : String
  pub name : String
  pub description : String
  pub steps : List ScenarioStep
  pub required_capabilities : List String
