-- ===== src/Tasks/Steps.antt =====
-- pkg/control-plane/tasks/runner.go: the loop of `runOne` over the steps of a scenario, and its wait.
-- The environment is a list of rounds, one for each step and one for the completion. A round has the
-- poll before the step and the polls of the step's wait. A poll is one look of the code at the clock
-- and at the task: what the API's handler for cancellations did since the poll before, whether the
-- context is done, and the time. A list that ends too early leaves the run unfinished.
pub mod Outcome
pub mod Keeps
pub mod Commands
pub mod Ends
pub mod Published
use sai_aurosy.Prelude.{
  ℕ, ◌+◌, ◌*◌, Bool, true, false, not, ◌&&◌, ◌||◌, Option, none, some, List, [], ◌∷◌, String, ◌==◌,
  ltb, if◌then◌else◌,
}
use sai_aurosy.Prelude.Int.{ℤ, pos, is_positive, is_minus_one, to_ℕ}
use sai_aurosy.Hal.{Time, Command}
use sai_aurosy.Codec.{Codec, TaskPayload, Velocity}
use sai_aurosy.Telemetry.{Link, publish_command}
use sai_aurosy.Arbiter.Safety.{safety_allow}
use sai_aurosy.Tasks.Types.{Task, Status, completed, failed, cancelled, same_status, ScenarioStep}
use sai_aurosy.Tasks.Store as TaskStore
use sai_aurosy.Tasks.World.{World, end_task, stop_task}

pub record Poll : Type 0 where
  pub cancels : List String
  pub done : Bool
  pub now : Time

pub record Round : Type 0 where
  pub check : Poll
  pub waits : List Poll

-- The updates by which the API's `cancelTask` cancels tasks. It looks at the status before, but apart from
-- the update, so that any task may be among them.
cancel_all : List String → Time → TaskStore.Store → TaskStore.Store
cancel_all [] now s = s
cancel_all (id ∷ ids) now s = cancel_all ids now (TaskStore.update_status id cancelled now s)

pub observe : Poll → World → World
unfolding cancel_all
observe p w = record w { tasks = cancel_all p.cancels p.now w.tasks }

-- t != nil && t.Status == StatusCancelled
is_cancelled : Option Task → Bool
is_cancelled none = false
is_cancelled (some t) = same_status t.status cancelled

-- Whether the code stops at a poll: the context is done, or the stored task is cancelled.
unfoldable pub stops : Task → Poll → World → Bool
unfolding is_cancelled
stops task p w = p.done || is_cancelled (TaskStore.get_task task.id w.tasks)

-- How one step ends: the polls ran out, the command was refused, the run was stopped, or the step
-- was held long enough.
pub data StepEnd : Type 0 where
  starved rejected stopped held : StepEnd

-- How a run ends: with the status that it gave to the task, or not within the polls.
pub data Verdict : Type 0 where
  unfinished : Verdict
  finished : Status → Verdict

-- What follows a step: nothing, or the steps behind it.
after_step : World → StepEnd → World × Verdict → World × Verdict
after_step w starved next = (w, unfinished)
after_step w rejected next = (w, finished failed)
after_step w stopped next = (w, finished cancelled)
after_step w held next = next

module _ {F : Type 0} (c : Codec F) (link : Link) (task : Task) where
  -- for time.Now().Before(deadline) { select { ... } time.Sleep(...) }
  pub wait : Time → List Poll → World → World × StepEnd
  unfolding observe
  wait deadline [] w = (w, starved)
  wait deadline (p ∷ ps) w =
      let w' = observe p w in
      let rest = wait deadline ps w' in
      if not (ltb p.now deadline)
      then (w', held)
      else if stops task p w'
      then (stop_task c link task p.now w', stopped)
      else rest

  module _ (tp : TaskPayload F) where
    -- The payload of a step's command.
    pub step_payload : ScenarioStep → String
    step_payload step =
        if not (step.payload == "")
        then step.payload
        else if step.command == "cmd_vel"
        then (if task.payload == "" then c.encode_velocity tp.velocity else task.payload)
        else if step.command == "navigate_to" && not (task.payload == "")
        then task.payload
        else step.payload

    -- The seconds that a step is held.
    unfoldable pub step_duration : ScenarioStep → ℤ
    step_duration step =
        if not (is_minus_one step.duration_sec)
        then step.duration_sec
        else if not (is_positive tp.duration_sec) && step.command == "navigate_to"
        then pos 30
        else tp.duration_sec

    pub step_command : ScenarioStep → Time → Command
    unfolding step_payload
    step_command step now = record {
      robot_id = task.robot_id;
      command = step.command;
      payload = step_payload step;
      timestamp = now;
      operator_id = task.operator_id;
    }

    hold : ℤ → Time → List Poll → World → World × StepEnd
    unfolding wait
    hold d now ps w = if is_positive d then wait (now + to_ℕ d * 1000) ps w else (w, held)

    after_publish : ScenarioStep → Time → List Poll → World → List Command × Bool → World × StepEnd
    unfolding step_duration hold
    after_publish step now ps w (sent, false) =
        (end_task task failed now (record w { sent = sent }), rejected)
    after_publish step now ps w (sent, true) =
        hold (step_duration step) now ps (record w { sent = sent })

    -- One step behind its first poll: the safety test, the publication and the wait.
    run_step : ScenarioStep → Time → List Poll → World → World × StepEnd
    unfolding step_command after_publish publish_command
    run_step step now ps w =
        let cmd = step_command step now in
        if not (safety_allow c cmd)
        then (end_task task failed now w, rejected)
        else after_publish step now ps w (publish_command link cmd w.sent)

    -- for i, step := range scenario.Steps { ... }, and the completion behind the loop.
    unfoldable pub run_steps : List ScenarioStep → List Round → World → World × Verdict
    unfolding run_step observe after_step
    run_steps steps [] w = (w, unfinished)
    run_steps [] (r ∷ rounds) w =
        (end_task task completed r.check.now (observe r.check w), finished completed)
    run_steps (step ∷ steps) (r ∷ rounds) w =
        let w' = observe r.check w in
        if stops task r.check w'
        then (stop_task c link task r.check.now w', finished cancelled)
        else let (w'', end) = run_step step r.check.now r.waits w' in
          after_step w'' end (run_steps steps rounds w'')
