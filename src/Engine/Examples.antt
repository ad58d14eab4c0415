-- ===== src/Engine/Examples.antt =====
-- The engine on a task whose robot arrives after two messages.
use sai_aurosy.Prelude.{◌≡◌, ◌≢◌, refl, Bool, true, false, none, some, List, [], ◌∷◌, Memᴰ, arith}
use sai_aurosy.Prelude.Int.{ℤ, pos}
use sai_aurosy.Dict
use sai_aurosy.Hal.{Command}
use sai_aurosy.Codec.Decimal.{decimal}
use sai_aurosy.Arbiter.Safety.{safety_allow, validate_navigate_to_payload}
use sai_aurosy.Robot.StateMachine.{idle, arrived, can_transition}
use sai_aurosy.Robot.Manager.Legal.{state_of}
use sai_aurosy.Tasks.Types.{Task, running}
use sai_aurosy.Engine.Navigation.{
  NavigationExecutor, NavigationRequest, Signal, message, tick, notified, arrival, execute,
  deadline_of,
}
use sai_aurosy.Engine.Navigation.Arrival.{Succeeded, execute-Succeeded, execute-ends}
use sai_aurosy.Engine.Executor.{Watch, nav_payload, execute_task}
use sai_aurosy.Engine.Lifecycle.Declines.{execute_task_entry-unchanged}
use sai_aurosy.Engine.Lifecycle.{
  execute_task_entry, Config, EngineState, execute_navigate_to_store, execute_return_to_base,
}
use sai_aurosy.Engine.Lifecycle.Results.{Concluded}
use sai_aurosy.Engine.Lifecycle.Concluded.{
  execute_navigate_to_store-Concluded, execute_return_to_base-Concluded,
}

abbrev executor : NavigationExecutor ℤ
executor = record { arrival_threshold = pos 10; default_timeout = pos 120000 }

abbrev connected : Command → Bool
connected cmd = true

abbrev to_shoes : NavigationRequest
to_shoes = record {
  robot_id = "r1";
  task_id = "t1";
  target_coords = "1,2,0";
  store_name = "Shoes";
  dest_node_id = "n4";
  operator_id = "op";
  is_return = false;
  timeout = pos 30000;
}

-- First 5 metres away, then 30 centimetres.
abbrev approach : List (Signal ℤ)
approach =
    message (record { online = true; distance_to_target = some (pos 50) })
    ∷ tick 600
    ∷ message (record { online = true; distance_to_target = some (pos 3) })
    ∷ notified
    ∷ []

abbrev silence : List (Signal ℤ)
silence = tick 600 ∷ tick 30101 ∷ []

execute-Succeeded_example :
    Succeeded decimal connected executor to_shoes 100 approach []
      (execute decimal connected executor to_shoes 100 true approach []).0
unfolding execute safety_allow validate_navigate_to_payload
execute-Succeeded_example =
    execute-Succeeded decimal connected executor to_shoes 100 true approach [] arrival refl refl

execute-ends_example : (execute decimal connected executor to_shoes 100 true silence []).1 ≢ none
unfolding deadline_of
execute-ends_example =
    execute-ends decimal connected executor to_shoes 100 30101 true silence []
      (Memᴰ.tail (Memᴰ.head refl)) (omega arith)

abbrev watch : Watch ℤ
watch = record { now = 100; subscribes = true; signals = approach; ended = 900 }

abbrev config : Config
config = record { broadcasts = true; stores = true; timeout_as_completion = false }

abbrev shop_task : Task
shop_task = record {
  id = "t1";
  robot_id = "r1";
  tenant_id = "default";
  kind = "scenario";
  scenario_id = "navigate_to_store";
  payload = "shop";
  status = running;
  created_at = 1;
  updated_at = 1;
  completed_at = none;
  operator_id = "op";
}

abbrev base_task : Task
base_task = record shop_task { scenario_id = "navigation" }

-- The world with a task in its store.
abbrev with_task : Task → EngineState
with_task task = record {
  robots = [];
  world = record {
    tasks = ("t1", task) ∷ [];
    zones = record { zones = []; locks = [] };
    sent = [];
    events = [];
  };
  broadcasts = [];
}

execute_navigate_to_store-Concluded_example :
    Concluded decimal connected executor config arrived shop_task
      (with_task shop_task).world
      (execute_navigate_to_store decimal connected executor config shop_task watch
        (with_task shop_task)).0
unfolding Dict.get state_of can_transition execute_navigate_to_store execute_task nav_payload
    execute safety_allow validate_navigate_to_payload
execute_navigate_to_store-Concluded_example =
    execute_navigate_to_store-Concluded decimal connected executor config refl (λ r now. refl)
      shop_task watch (with_task shop_task) refl refl refl

execute_return_to_base-Concluded_example :
    Concluded decimal connected executor config idle base_task
      (with_task base_task).world
      (execute_return_to_base decimal connected executor config base_task watch
        (with_task base_task)).0
unfolding Dict.get state_of can_transition execute_return_to_base execute_task nav_payload execute
    safety_allow validate_navigate_to_payload
execute_return_to_base-Concluded_example =
    execute_return_to_base-Concluded decimal connected executor config refl (λ r now. refl)
      base_task watch (with_task base_task) refl refl refl

abbrev patrol_task : Task
patrol_task = record shop_task { scenario_id = "patrol" }

-- A patrol is not a navigation task.
execute_task_entry-unchanged_example :
    (execute_task_entry decimal connected executor config patrol_task watch
      (with_task patrol_task)).0
    ≡ with_task patrol_task
unfolding execute_task_entry
execute_task_entry-unchanged_example =
    execute_task_entry-unchanged decimal connected executor config patrol_task watch
      (with_task patrol_task) refl
