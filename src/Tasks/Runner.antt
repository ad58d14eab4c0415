-- ===== src/Tasks/Runner.antt =====
-- pkg/control-plane/tasks/runner.go: `runOne`, one iteration of the task runner, around the loop of
-- Steps. `Setup` holds what the runner is made with: the fleet registry, the scenario catalog, the
-- optional execution engine and mall assistant, whether there is a zone coordinator, and the order in
-- which the store's map is iterated, of which Go promises nothing.
pub mod Zoned
pub mod Once
use sai_aurosy.Prelude.{
  Bool, true, false, not, ◌&&◌, ◌||◌, Option, none, some, List, [], ◌∷◌, String, ◌==◌, is_some,
  if◌then◌else◌,
}
use sai_aurosy.Prelude.Int.{pos, is_positive}
use sai_aurosy.Dict
use sai_aurosy.Dict.{Dict}
use sai_aurosy.Hal.{Time, Robot, has_capability}
use sai_aurosy.Codec.{Codec, TaskPayload, Velocity}
use sai_aurosy.Telemetry.{Link}
use sai_aurosy.Coordinator as Zones
use sai_aurosy.Tasks.Types.{Task, Status, pending, running, failed, Scenario, ScenarioStep}
use sai_aurosy.Tasks.Store as TaskStore
use sai_aurosy.Tasks.World.{World, started, zone_acquired, zone_released, delegated, emit, end_task}
use sai_aurosy.Tasks.Steps.{Round, Verdict, unfinished, finished, run_steps}

pub record Setup : Type 0 where
  pub registry : Dict Robot
  pub catalog : String → Option Scenario
  pub engine : Option (Task → World → World × Bool)
  pub mall : Bool
  pub coordinated : Bool
  pub order : List Task → List Task

-- What an iteration did: nothing, the start of the mall assistant, a task that the engine took, or a
-- task that the runner ran itself.
pub data Result : Type 0 where
  nothing assisted engaged : Result
  ran : Verdict → Result

module _ {F : Type 0} (c : Codec F) (link : Link) (cfg : Setup) where
  zero_payload : TaskPayload F
  zero_payload = record {
    duration_sec = pos 0;
    velocity = record {
      linear_x = c.tenths (pos 0);
      linear_y = c.tenths (pos 0);
      angular_z = c.tenths (pos 0);
    };
    zone_id = "";
    target_coordinates = "";
    store_name = "";
  }

  -- A duration that is not positive becomes 30 seconds.
  with_duration : TaskPayload F → TaskPayload F
  with_duration tp = if is_positive tp.duration_sec then tp else record tp { duration_sec = pos 30 }

  task_payload : Task → TaskPayload F
  unfolding zero_payload with_duration
  task_payload task =
      with_duration (if task.payload == "" then zero_payload else c.decode_task task.payload)

  -- The deferred function: it runs when the iteration returns.
  release : Task → String → World × Verdict → World × Result
  unfolding emit
  release task zone (w, unfinished) = (w, ran unfinished)
  release task zone (w, finished st) = (
    let w' = emit (zone_released task.robot_id zone task.id) w in
        record w' { zones = (Zones.release_zone task.robot_id zone w'.zones).0 },
    ran (finished st),
  )

  in_zone :
      Task
      → TaskPayload F
      → Scenario
      → List Round
      → Time
      → World
      → Zones.Store × Bool
      → World × Result
  unfolding release emit end_task
  in_zone task tp scenario rounds now w (zones, false) =
      (end_task task failed now (record w { zones = zones }), ran (finished failed))
  in_zone task tp scenario rounds now w (zones, true) = release task tp.zone_id (
      run_steps c link task tp scenario.steps rounds
        (emit (zone_acquired task.robot_id tp.zone_id task.id) (record w { zones = zones })))

  ran_with : World × Verdict → World × Result
  ran_with (w, v) = (w, ran v)

  -- Whether the zone of the payload is to be acquired.
  unfoldable pub coordinates : Task → TaskPayload F → Bool
  coordinates task tp =
      cfg.coordinated
      && not (tp.zone_id == "")
      && (task.scenario_id == "patrol" || task.scenario_id == "navigation")

  -- The zone coordination and the steps.
  unfoldable pub run_scenario :
      Task → TaskPayload F → Scenario → List Round → Time → World → World × Result
  unfolding in_zone ran_with
  run_scenario task tp scenario rounds now w =
      if coordinates task tp
      then in_zone task tp scenario rounds now w
          (Zones.acquire_zone task.robot_id tp.zone_id now w.zones)
      else ran_with (run_steps c link task tp scenario.steps rounds w)

  -- The two tests before `ExecuteTaskEntry`.
  goes_to_engine : Task → TaskPayload F → Bool
  goes_to_engine task tp =
      task.scenario_id == "navigate_to_store"
      || (task.scenario_id == "navigation" && not (tp.target_coordinates == ""))

  after_engine : Task → TaskPayload F → Scenario → List Round → Time → World × Bool → World × Result
  after_engine task tp scenario rounds now (w, true) = (w, engaged)
  after_engine task tp scenario rounds now (w, false) = run_scenario task tp scenario rounds now w

  try_engine :
      Option (Task → World → World × Bool)
      → Task
      → TaskPayload F
      → Scenario
      → List Round
      → Time
      → World
      → World × Result
  unfolding goes_to_engine after_engine
  try_engine none task tp scenario rounds now w = run_scenario task tp scenario rounds now w
  try_engine (some execute) task tp scenario rounds now w =
      if goes_to_engine task tp
      then after_engine task tp scenario rounds now (execute task w)
      else run_scenario task tp scenario rounds now w

  or_default : String → String → String
  or_default s d = if s == "" then d else s

  -- The task is marked as running, and handed to the mall assistant, the engine or the steps.
  start : Task → Scenario → List Round → Time → World → World × Result
  unfolding task_payload try_engine or_default emit
  start task scenario rounds now w =
      let tp = task_payload task in
      let w' =
        emit (started task.id task.robot_id task.scenario_id tp.zone_id)
          (record w { tasks = TaskStore.update_status task.id running now w.tasks }) in
      let task' = record task { status = running } in
      if task.scenario_id == "mall_assistant" && cfg.mall
      then (
        emit
            (delegated task.id task.robot_id (or_default task.tenant_id "default")
              (or_default task.operator_id "console"))
            w',
        assisted,
      )
      else try_engine cfg.engine task' tp scenario rounds now w'

  with_scenario : Option Scenario → Task → Option Robot → List Round → Time → World → World × Result
  unfolding start
  with_scenario none task robot rounds now w = (end_task task failed now w, ran (finished failed))
  with_scenario (some scenario) task robot rounds now w =
      if not (has_capability robot scenario.required_capabilities)
      then (end_task task failed now w, ran (finished failed))
      else start task scenario rounds now w

  try_task : Task → List Round → Time → World → World × Result
  unfolding with_scenario
  try_task task rounds now w =
      if TaskStore.has_running_for_robot task.robot_id w.tasks
      then (w, nothing)
      else if not (is_some (Dict.get cfg.registry task.robot_id))
      then (w, nothing)
      else with_scenario (cfg.catalog task.scenario_id) task (Dict.get cfg.registry task.robot_id)
          rounds now w

  first_of_pending : List Task → List Round → Time → World → World × Result
  unfolding try_task
  first_of_pending [] rounds now w = (w, nothing)
  first_of_pending (task ∷ rest) rounds now w = try_task task rounds now w

  unfoldable pub run_one : List Round → Time → World → World × Result
  unfolding first_of_pending
  run_one rounds now w =
      first_of_pending
        (cfg.order (
          TaskStore.list_tasks (record { robot_id = ""; tenant_id = ""; status = some pending })
            w.tasks))
        rounds now w
