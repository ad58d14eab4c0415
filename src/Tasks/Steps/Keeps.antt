-- ===== src/Tasks/Steps/Keeps.antt =====
-- Properties of the runner's state that a run of a scenario's steps keeps.
use sai_aurosy.Prelude.{◌≡◌, inl, inr, true, List, [], ◌∷◌, ltb, Bool-cases}
use sai_aurosy.Prelude.Int.{ℤ, is_positive}
use sai_aurosy.Hal.{Time, Command}
use sai_aurosy.Codec.{Codec, TaskPayload}
use sai_aurosy.Telemetry.{Link, publish_command}
use sai_aurosy.Arbiter.Safety.{safety_allow}
use sai_aurosy.Tasks.Types.{Task, Status, completed, failed, cancelled, ScenarioStep}
use sai_aurosy.Tasks.World.{World, end_task, stop_task, send_safe_stop, safe_stop_command}
use sai_aurosy.Tasks.Steps.{
  Poll, Round, observe, stops, StepEnd, starved, rejected, stopped, held, Verdict, wait, hold,
  run_step, run_steps, after_step, step_command,
}

-- The three kinds of change that a run makes keep `P`: what a poll sees, the end of the task, and the
-- publication of a command that passes the safety test.
pub record IsStable {F : Type 0} (c : Codec F) (link : Link) (task : Task) (P : World → Type 0)
    : Type 0 where
  pub observed : (p : Poll) (w : World) → P w → P (observe p w)
  pub closed : (st : Status) (now : Time) (w : World) → P w → P (end_task task st now w)
  pub published :
      (cmd : Command) (w : World)
      → safety_allow c cmd ≡ true
      → P w
      → P (record w { sent = (publish_command link cmd w.sent).0 })

module _ {F : Type 0} (c : Codec F) (link : Link) (task : Task) (P : World → Type 0)
    (s : IsStable c link task P) where
  stop_task-keeps : (now : Time) (w : World) → P w → P (stop_task c link task now w)
  unfolding stop_task send_safe_stop
  stop_task-keeps now w h = elim (Bool-cases (safety_allow c cmd)) [
    | inl e ↦ rw e (s.published cmd (end_task task cancelled now w) e (s.closed cancelled now w h))
    | inr e ↦ rw e (s.closed cancelled now w h)
  ]
    where
      cmd : Command
      cmd = safe_stop_command c link task now

  wait-keeps :
      (deadline : Time) (ps : List Poll) (w : World) → P w → P (wait c link task deadline ps w).0
  unfolding wait
  wait-keeps deadline [] w h = h
  wait-keeps deadline (p ∷ ps) w h = elim (Bool-cases (ltb p.now deadline)) [
    | inl before ↦ elim (Bool-cases (stops task p (observe p w))) [
      | inl e ↦ rw (before, e) (stop_task-keeps p.now (observe p w) (s.observed p w h))
      | inr e ↦ rw (before, e) (wait-keeps deadline ps (observe p w) (s.observed p w h))
    ]
    | inr after ↦ rw after (s.observed p w h)
  ]

  after_step-keeps :
      (w : World) (end : StepEnd) (next : World × Verdict)
      → P w
      → P next.0
      → P (after_step w end next).0
  unfolding after_step
  after_step-keeps w starved next h k = h
  after_step-keeps w rejected next h k = h
  after_step-keeps w stopped next h k = h
  after_step-keeps w held next h k = k

  module _ (tp : TaskPayload F) where
    hold-keeps :
        (d : ℤ) (now : Time) (ps : List Poll) (w : World)
        → P w
        → P (hold c link task tp d now ps w).0
    unfolding hold
    hold-keeps d now ps w h = elim (Bool-cases (is_positive d)) [
      | inl e ↦ rw e (wait-keeps _ ps w h)
      | inr e ↦ rw e h
    ]

    run_step-keeps :
        (step : ScenarioStep) (now : Time) (ps : List Poll) (w : World)
        → P w
        → P (run_step c link task tp step now ps w).0
    unfolding run_step
    run_step-keeps step now ps w h = elim (Bool-cases (safety_allow c cmd)) [
      | inl e ↦ elim (Bool-cases (link cmd)) [
        | inl l ↦
            rw (e, l) (hold-keeps _ now ps _ (rw (publish_command, l) at (s.published cmd w e h)))
        | inr l ↦ rw (e, l) (s.closed failed now _ h)
      ]
      | inr e ↦ rw e (s.closed failed now w h)
    ]
      where
        cmd : Command
        cmd = step_command c link task tp step now

    pub run_steps-keeps :
        (steps : List ScenarioStep) (rounds : List Round) (w : World)
        → P w
        → P (run_steps c link task tp steps rounds w).0
    unfolding run_steps
    run_steps-keeps [] [] w h = h
    run_steps-keeps [] (r ∷ rounds) w h = s.closed completed r.check.now _ (s.observed r.check w h)
    run_steps-keeps (step ∷ steps) [] w h = h
    run_steps-keeps (step ∷ steps) (r ∷ rounds) w h =
        elim (Bool-cases (stops task r.check (observe r.check w))) [
          | inl e ↦ rw e (stop_task-keeps r.check.now (observe r.check w) (s.observed r.check w h))
          | inr e ↦ rw e (
              after_step-keeps step_end.0 step_end.1 _ stepped
                (run_steps-keeps steps rounds step_end.0 stepped))
        ]
      where
        step_end : World × StepEnd
        step_end = run_step c link task tp step r.check.now r.waits (observe r.check w)

        stepped : P step_end.0
        stepped =
            run_step-keeps step r.check.now r.waits (observe r.check w) (s.observed r.check w h)
