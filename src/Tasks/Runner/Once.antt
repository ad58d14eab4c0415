-- ===== src/Tasks/Runner/Once.antt =====
-- One iteration of the runner as a whole: which task it takes, and how it leaves it.
use sai_aurosy.Prelude.{
  ◌≡◌, refl, ap, subst, ◌∙◌, inl, inr, Bool, true, false, ◌&&◌, Option, none, some, List, [], ◌∷◌,
  Memᴰ, String, ◌==◌, arith, is_some, Bool-cases,
}
use sai_aurosy.Dict
use sai_aurosy.Hal.{Time, Robot, has_capability}
use sai_aurosy.Codec.{Codec, TaskPayload}
use sai_aurosy.Telemetry.{Link}
use sai_aurosy.Coordinator as Zones
use sai_aurosy.Tasks.Types.{Task, Status, pending, running, failed, Scenario}
use sai_aurosy.Tasks.Store as TaskStore
use sai_aurosy.Tasks.Store.Laws.{IsKeyed, list_iff}
use sai_aurosy.Tasks.World.{World, Event, started, zone_acquired, zone_released, emit}
use sai_aurosy.Tasks.Steps.{Round, Verdict, unfinished, finished, run_steps}
use sai_aurosy.Tasks.Steps.Outcome.{
  endings, Has, Closed, Outcome, Outcome-after, end_task-Closed, Has-update, run_steps-Outcome,
  endings-append,
}
use sai_aurosy.Tasks.Runner.{
  Setup, Result, nothing, assisted, engaged, ran, run_scenario, in_zone, release, coordinates,
  ran_with, after_engine, try_engine, goes_to_engine, start, with_scenario, try_task,
  first_of_pending, run_one, task_payload,
}

-- A result of the runner's own run closes the task once, or leaves it unannounced.
abbrev pub RunOutcome : Task → World → World → Result → Type 0
RunOutcome task w w' nothing = Unit
RunOutcome task w w' assisted = Unit
RunOutcome task w w' engaged = Unit
RunOutcome task w w' (ran v) = Outcome task w w' v

-- An event that is no completion is not counted.
quiet_emit :
    (id : String) (e : Event) (w : World)
    → endings id (e ∷ []) ≡ 0
    → endings id (emit e w).events ≡ endings id w.events
unfolding emit
quiet_emit id e w h = ground (arith, endings-append id w.events e)

module _ {F : Type 0} (c : Codec F) (link : Link) (cfg : Setup) where
  release-Outcome :
      (task : Task) (zone : String) (w : World) (r : World × Verdict)
      → Outcome task w r.0 r.1
      → let (w', res) = release c link cfg task zone r in RunOutcome task w w' res
  unfolding release
  release-Outcome task zone w (w', unfinished) o = o
  release-Outcome task zone w (w', finished st) o = (
    quiet_emit task.id (zone_released task.robot_id zone task.id) w' (unfold endings in refl) ∙ o.0,
    o.1,
  )

  in_zone-Outcome :
      (task : Task) (tp : TaskPayload F) (scenario : Scenario) (rounds : List Round) (now : Time)
      (w : World) (a : Zones.Store × Bool)
      → Has task.id w
      → let (w', res) = in_zone c link cfg task tp scenario rounds now w a in
        RunOutcome task w w' res
  unfolding in_zone
  in_zone-Outcome task tp scenario rounds now w (zones, false) h =
      end_task-Closed task failed now (record w { zones = zones }) h
  in_zone-Outcome task tp scenario rounds now w (zones, true) h =
      release-Outcome task tp.zone_id w (run_steps c link task tp scenario.steps rounds acquired) (
        Outcome-after task w acquired (run_steps c link task tp scenario.steps rounds acquired)
          (quiet_emit task.id (zone_acquired task.robot_id tp.zone_id task.id)
            (record w { zones = zones }) (unfold endings in refl))
          (run_steps-Outcome c link task tp scenario.steps rounds acquired (unfold emit in h)))
    where
      acquired : World
      acquired = emit (zone_acquired task.robot_id tp.zone_id task.id) (record w { zones = zones })

  run_scenario-Outcome :
      (task : Task) (tp : TaskPayload F) (scenario : Scenario) (rounds : List Round) (now : Time)
      (w : World)
      → Has task.id w
      → let (w', res) = run_scenario c link cfg task tp scenario rounds now w in
        RunOutcome task w w' res
  unfolding run_scenario ran_with
  run_scenario-Outcome task tp scenario rounds now w h =
      elim (Bool-cases (coordinates c link cfg task tp)) [
        | inl e ↦ rw e (
            in_zone-Outcome task tp scenario rounds now w
              (Zones.acquire_zone task.robot_id tp.zone_id now w.zones) h)
        | inr e ↦ rw e (run_steps-Outcome c link task tp scenario.steps rounds w h)
      ]

  -- An engine that does not take a task has changed nothing.
  abbrev pub Declines : Option (Task → World → World × Bool) → Type 0
  Declines none = Unit
  Declines (some execute) = (t : Task) (w : World) → (execute t w).1 ≡ false → (execute t w).0 ≡ w

  after_engine-Outcome :
      (task : Task) (tp : TaskPayload F) (scenario : Scenario) (rounds : List Round) (now : Time)
      (w : World) (r : World × Bool)
      → (r.1 ≡ false → r.0 ≡ w)
      → Has task.id w
      → let (w', res) = after_engine c link cfg task tp scenario rounds now r in
        RunOutcome task w w' res
  unfolding after_engine
  after_engine-Outcome task tp scenario rounds now w (w', true) d h = tt
  after_engine-Outcome task tp scenario rounds now w (w', false) d h =
      rw (d refl) (run_scenario-Outcome task tp scenario rounds now w h)

  try_engine-Outcome :
      (engine : Option (Task → World → World × Bool)) (task : Task) (tp : TaskPayload F)
      (scenario : Scenario) (rounds : List Round) (now : Time) (w : World)
      → Declines engine
      → Has task.id w
      → let (w', res) = try_engine c link cfg engine task tp scenario rounds now w in
        RunOutcome task w w' res
  unfolding try_engine
  try_engine-Outcome none task tp scenario rounds now w d h =
      run_scenario-Outcome task tp scenario rounds now w h
  try_engine-Outcome (some execute) task tp scenario rounds now w d h =
      elim (Bool-cases (goes_to_engine c link cfg task tp)) [
        | inl e ↦
            rw e (after_engine-Outcome task tp scenario rounds now w (execute task w) (d task w) h)
        | inr e ↦ rw e (run_scenario-Outcome task tp scenario rounds now w h)
      ]

  RunOutcome-after :
      (task : Task) (w w' : World) (r : World × Result)
      → endings task.id w'.events ≡ endings task.id w.events
      → RunOutcome task w' r.0 r.1
      → RunOutcome task w r.0 r.1
  RunOutcome-after task w w' (x, nothing) q o = tt
  RunOutcome-after task w w' (x, assisted) q o = tt
  RunOutcome-after task w w' (x, engaged) q o = tt
  RunOutcome-after task w w' (x, ran v) q o = Outcome-after task w w' (x, v) q o

  start-Outcome :
      (task : Task) (scenario : Scenario) (rounds : List Round) (now : Time) (w : World)
      → Declines cfg.engine
      → Has task.id w
      → let (w', res) = start c link cfg task scenario rounds now w in RunOutcome task w w' res
  unfolding start
  start-Outcome task scenario rounds now w d h =
      elim (Bool-cases (task.scenario_id == "mall_assistant" && cfg.mall)) [
        | inl e ↦ rw e tt
        | inr e ↦ rw e (
            RunOutcome-after task w marked
              (try_engine c link cfg cfg.engine (record task { status = running }) tp scenario
                rounds now marked)
              (quiet_emit task.id announced
                (record w { tasks = TaskStore.update_status task.id running now w.tasks })
                (unfold endings in refl))
              (try_engine-Outcome cfg.engine (record task { status = running }) tp scenario rounds
                now marked d still))
      ]
    where
      tp : TaskPayload F
      tp = task_payload c link cfg task

      announced : Event
      announced = started task.id task.robot_id task.scenario_id tp.zone_id

      marked : World
      marked =
          emit announced (record w { tasks = TaskStore.update_status task.id running now w.tasks })

      still : Has task.id marked
      still = unfold emit TaskStore.update_status in Has-update task.id task.id _ w.tasks h

  with_scenario-Outcome :
      (o : Option Scenario) (task : Task) (robot : Option Robot) (rounds : List Round) (now : Time)
      (w : World)
      → Declines cfg.engine
      → Has task.id w
      → let (w', res) = with_scenario c link cfg o task robot rounds now w in
        RunOutcome task w w' res
  unfolding with_scenario
  with_scenario-Outcome none task robot rounds now w d h = end_task-Closed task failed now w h
  with_scenario-Outcome (some sc) task robot rounds now w d h =
      elim (Bool-cases (has_capability robot sc.required_capabilities)) [
        | inl e ↦ rw e (start-Outcome task sc rounds now w d h)
        | inr e ↦ rw e (end_task-Closed task failed now w h)
      ]

  try_task-Outcome :
      (task : Task) (rounds : List Round) (now : Time) (w : World)
      → Declines cfg.engine
      → Has task.id w
      → let (w', res) = try_task c link cfg task rounds now w in RunOutcome task w w' res
  unfolding try_task
  try_task-Outcome task rounds now w d h =
      elim (Bool-cases (TaskStore.has_running_for_robot task.robot_id w.tasks)) [
        | inl e ↦ rw e tt
        | inr e ↦ elim (Bool-cases (is_some (Dict.get cfg.registry task.robot_id))) [
          | inl r ↦
              rw (e, r)
                (with_scenario-Outcome (cfg.catalog task.scenario_id) task
                  (Dict.get cfg.registry task.robot_id) rounds now w d h)
          | inr r ↦ rw (e, r) tt
        ]
      ]

  first-Outcome :
      (ts : List Task) (rounds : List Round) (now : Time) (w : World) (st : Status)
      → ((t : Task) → Memᴰ t ts → (TaskStore.get_task t.id w.tasks ≡ some t) × (t.status ≡ pending))
      → Declines cfg.engine
      → (first_of_pending c link cfg ts rounds now w).1 ≡ ran (finished st)
      → (task : Task) × (TaskStore.get_task task.id w.tasks ≡ some task)
        × (task.status ≡ pending)
        × Closed task st w (first_of_pending c link cfg ts rounds now w).0
  unfolding first_of_pending
  first-Outcome [] rounds now w st listed d q = cc
  first-Outcome (task ∷ rest) rounds now w st listed d q =
      let (g, p) = listed task (Memᴰ.head refl) in
      let r = try_task c link cfg task rounds now w in
      (
        task,
        g,
        p,
        subst (λ x. RunOutcome task w r.0 x) q
            (try_task-Outcome task rounds now w d (unfold TaskStore.get_task in ap is_some g)),
      )

  -- Suppose the tasks of the store stand under their identifiers, the iteration order only reorders
  -- tasks that are listed, and an engine that does not take a task changes nothing. Then an
  -- iteration in which the runner ran a task to its end took a task that was stored as pending,
  -- announced its completion exactly once, and left it in the store with the status that it ended
  -- with and a completion time.
  pub run_one-Outcome :
      (rounds : List Round) (now : Time) (w : World) (st : Status)
      → IsKeyed w.tasks
      → ((ts : List Task) (t : Task) → Memᴰ t (cfg.order ts) → Memᴰ t ts)
      → Declines cfg.engine
      → (run_one c link cfg rounds now w).1 ≡ ran (finished st)
      → (task : Task) × (TaskStore.get_task task.id w.tasks ≡ some task)
        × (task.status ≡ pending)
        × Closed task st w (run_one c link cfg rounds now w).0
  unfolding run_one
  run_one-Outcome rounds now w st k o d q =
      first-Outcome (cfg.order (TaskStore.list_tasks pendings w.tasks)) rounds now w st
        (λ t m.
          let (g, meets) =
            (list_iff pendings w.tasks t k).0 (o (TaskStore.list_tasks pendings w.tasks) t m) in
          (g, meets.state pending refl))
        d q
    where
      pendings : TaskStore.ListFilters
      pendings = record { robot_id = ""; tenant_id = ""; status = some pending }
