-- ===== src/Tasks/Examples.antt =====
-- The runner at one patrol of one robot, after runner_test.go and store_test.go.
use sai_aurosy.Prelude.{
  ◌↔◌, Memᴰ, ◌≡◌, ◌≢◌, refl, Bool, true, false, none, some, List, [], ◌∷◌, ◌++◌, ◌==◌, eq_iff,
  arith, if◌then◌else◌,
}
use sai_aurosy.Prelude.Int.{ℤ, pos, negsuc}
use sai_aurosy.Dict
use sai_aurosy.Hal.{Time, Robot, Command, has_capability}
use sai_aurosy.Arbiter.Safety.{safety_allow}
use sai_aurosy.Codec.{TaskPayload}
use sai_aurosy.Codec.Decimal.{decimal, forward}
use sai_aurosy.Coordinator as Zones
use sai_aurosy.Coordinator.Locks.{IsValid, holder}
use sai_aurosy.Tasks.Types.{Task, Scenario, ScenarioStep, pending, completed}
use sai_aurosy.Tasks.Store as TaskStore
use sai_aurosy.Tasks.Store.Laws.{IsKeyed, Meets, list_iff}
use sai_aurosy.Tasks.World.{World}
use sai_aurosy.Tasks.Steps.{Poll, Round, step_duration, stops, run_steps, unfinished}
use sai_aurosy.Tasks.Steps.Outcome.{Closed, Outcome, run_steps-Outcome}
use sai_aurosy.Tasks.Steps.Commands.{
  AllPermitted, run_steps-Permitted, StopSent, run_steps-StopSent,
}
use sai_aurosy.Tasks.Steps.Ends.{run_steps-ends}
use sai_aurosy.Tasks.Steps.Published.{step_commands, run_steps-sent}
use sai_aurosy.Tasks.Runner.{Setup, coordinates, run_scenario, run_one}
use sai_aurosy.Tasks.Runner.Zoned.{run_scenario-holders}
use sai_aurosy.Tasks.Runner.Once.{run_one-Outcome}

abbrev patrol_task : Task
patrol_task = record {
  id = "t1";
  robot_id = "r1";
  tenant_id = "default";
  kind = "scenario";
  scenario_id = "patrol";
  payload = "aisle";
  status = pending;
  created_at = 1;
  updated_at = 1;
  completed_at = none;
  operator_id = "op";
}

abbrev robot : Robot
robot = record {
  id = "r1";
  vendor = "unitree";
  model = "g1";
  adapter_endpoint = "";
  tenant_id = "default";
  edge_id = "";
  location = "";
  capabilities = "walk" ∷ [];
  created_at = 0;
  updated_at = 0;
}

-- Walk for the second that the payload names, then stand.
abbrev steps : List ScenarioStep
steps =
    record { command = "walk_mode"; payload = ""; duration_sec = negsuc 0 }
    ∷ record { command = "stand_mode"; payload = ""; duration_sec = pos 0 }
    ∷ []

abbrev patrol : Scenario
patrol = record {
  id = "patrol";
  name = "Patrol";
  description = "";
  steps = steps;
  required_capabilities = "walk" ∷ [];
}

abbrev one_second : TaskPayload ℤ
one_second = record {
  duration_sec = pos 1;
  velocity = forward (pos 3);
  zone_id = "X";
  target_coordinates = "";
  store_name = "";
}

abbrev connected : Command → Bool
connected cmd = true

-- A poll without a cancellation.
abbrev at_time : Time → Poll
at_time now = record { cancels = []; done = false; now = now }

abbrev rounds : List Round
rounds =
    record { check = at_time 100; waits = at_time 100 ∷ at_time 600 ∷ at_time 1100 ∷ [] }
    ∷ record { check = at_time 1200; waits = [] }
    ∷ record { check = at_time 1300; waits = [] }
    ∷ []

-- The operator cancels the task while the robot walks.
abbrev cancelled_rounds : List Round
cancelled_rounds =
    record {
      check = at_time 100;
      waits =
          at_time 100 ∷ record { cancels = "t1" ∷ []; done = false; now = 600 } ∷ at_time 1100 ∷ [];
    }
    ∷ []

abbrev store : TaskStore.Store
store = ("t1", patrol_task) ∷ []

abbrev world : World
world = record { tasks = store; zones = record { zones = []; locks = [] }; sent = []; events = [] }

abbrev setup : Setup
setup = record {
  registry = ("r1", robot) ∷ [];
  catalog = λ id. if id == "patrol" then some patrol else none;
  engine = none;
  mall = false;
  coordinated = true;
  order = λ ts. ts;
}

store-IsKeyed : IsKeyed store
unfolding Dict.get
store-IsKeyed = record { one_entry = (refl, tt); own_key = λ k t g. ground (arith, eq_iff "t1" k) }

zones-IsValid : IsValid world.zones
unfolding Dict.get
zones-IsValid = record { one_lock = tt; named = λ z lock g. cc }

abbrev any_pending : TaskStore.ListFilters
any_pending = record { robot_id = ""; tenant_id = ""; status = some pending }

list_iff_example :
    Memᴰ patrol_task (TaskStore.list_tasks any_pending store)
    ↔ ((TaskStore.get_task "t1" store ≡ some patrol_task) × Meets any_pending patrol_task)
list_iff_example = list_iff any_pending store patrol_task store-IsKeyed

run_steps-Outcome_example :
    let (w, v) = run_steps decimal connected patrol_task one_second steps rounds world in
    Outcome patrol_task world w v
unfolding Dict.get
run_steps-Outcome_example =
    run_steps-Outcome decimal connected patrol_task one_second steps rounds world refl

run_steps-Permitted_example :
    AllPermitted decimal connected patrol_task
      (run_steps decimal connected patrol_task one_second steps rounds world).0
run_steps-Permitted_example =
    run_steps-Permitted decimal connected patrol_task one_second steps rounds world tt

run_steps-ends_example :
    (run_steps decimal connected patrol_task one_second steps rounds world).1 ≢ unfinished
unfolding step_duration
run_steps-ends_example =
    run_steps-ends decimal connected patrol_task one_second steps rounds world (
      (omega arith, (omega arith, (omega arith, tt))),
      λ e. omega arith,
      (tt, λ e. absurd (ground arith), omega arith),
    )

run_steps-sent_example :
    (run_steps decimal connected patrol_task one_second steps rounds world).0.sent
    ≡ world.sent ++ step_commands decimal connected patrol_task one_second steps rounds
unfolding run_steps Dict.get TaskStore.get_task stops safety_allow
run_steps-sent_example =
    run_steps-sent decimal connected patrol_task one_second steps rounds world refl

run_steps-StopSent_example :
    StopSent decimal connected patrol_task
      (run_steps decimal connected patrol_task one_second steps cancelled_rounds world).0
unfolding run_steps Dict.get TaskStore.get_task stops safety_allow TaskStore.update_status Dict.put
run_steps-StopSent_example =
    run_steps-StopSent decimal connected patrol_task (λ now. refl) one_second steps cancelled_rounds
      world refl

run_scenario-holders_example :
    holder
      (run_scenario decimal connected setup patrol_task one_second patrol rounds 100 world).0.zones
      "X"
    ≡ holder world.zones "X"
unfolding run_scenario coordinates run_steps Dict.get TaskStore.get_task stops Zones.acquire_zone
    safety_allow
run_scenario-holders_example =
    run_scenario-holders decimal connected setup patrol_task one_second patrol rounds 100 world
      completed zones-IsValid refl "X"

run_one-Outcome_example :
    (task : Task) × (TaskStore.get_task task.id world.tasks ≡ some task)
    × (task.status ≡ pending)
    × Closed task completed world (run_one decimal connected setup rounds 100 world).0
unfolding run_one run_scenario coordinates run_steps Dict.get TaskStore.get_task stops
    TaskStore.list_tasks Dict.values TaskStore.has_running_for_robot has_capability
    Zones.acquire_zone TaskStore.update_status Dict.put safety_allow
run_one-Outcome_example =
    run_one-Outcome decimal connected setup rounds 100 world completed store-IsKeyed (λ ts t m. m)
      tt refl
