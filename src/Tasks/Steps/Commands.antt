-- ===== src/Tasks/Steps/Commands.antt =====
-- The commands that a run of a scenario's steps publishes.
use sai_aurosy.Prelude.{
  ◌≡◌, refl, inl, inr, true, List, [], ◌∷◌, ◌++◌, arith, ltb, All, All-append, Bool-cases,
}
use sai_aurosy.Prelude.Int.{ℤ, is_positive}
use sai_aurosy.Hal.{Time, Command}
use sai_aurosy.Codec.{Codec, TaskPayload}
use sai_aurosy.Telemetry.{Link, publish_command}
use sai_aurosy.Arbiter.Safety.{safety_allow}
use sai_aurosy.Arbiter.Permitted.{Permitted, safety_allow_iff}
use sai_aurosy.Tasks.Types.{Task, cancelled, ScenarioStep}
use sai_aurosy.Tasks.World.{World, end_task, stop_task, send_safe_stop, safe_stop_command}
use sai_aurosy.Tasks.Steps.Keeps.{IsStable, run_steps-keeps}
use sai_aurosy.Coordinator as Zones
use sai_aurosy.Tasks.Steps.{
  Poll, Round, observe, stops, StepEnd, starved, rejected, stopped, held, Verdict, finished, wait,
  hold, run_step, run_steps, after_step, step_command,
}

module _ {F : Type 0} (c : Codec F) (link : Link) (task : Task) where
  -- The commands on the bus are permitted by the safety test.
  abbrev pub AllPermitted : World → Type 0
  AllPermitted w = All (Permitted c) w.sent

  publish-Permitted :
      (cmd : Command) (w : World)
      → safety_allow c cmd ≡ true
      → AllPermitted w
      → AllPermitted (record w { sent = (publish_command link cmd w.sent).0 })
  unfolding publish_command
  publish-Permitted cmd w s h = elim (Bool-cases (link cmd)) [
    | inl e ↦ rw e (All-append (Permitted c) w.sent (cmd ∷ []) h ((safety_allow_iff c cmd).0 s, tt))
    | inr e ↦ rw e h
  ]

  AllPermitted-IsStable : IsStable c link task AllPermitted
  unfolding observe end_task
  AllPermitted-IsStable = record {
    observed = λ p w h. h;
    closed = λ st now w h. h;
    published = publish-Permitted;
  }

  -- A run of a scenario's steps publishes only commands that the safety test permits: if all
  -- commands on the bus were permitted before, all are permitted afterwards.
  pub run_steps-Permitted :
      (tp : TaskPayload F) (steps : List ScenarioStep) (rounds : List Round) (w : World)
      → AllPermitted w
      → AllPermitted (run_steps c link task tp steps rounds w).0
  run_steps-Permitted = run_steps-keeps c link task AllPermitted AllPermitted-IsStable

  zones-IsStable : (zones : Zones.Store) → IsStable c link task (λ w. w.zones ≡ zones)
  unfolding observe end_task
  zones-IsStable zones = record {
    observed = λ p w h. h;
    closed = λ st now w h. h;
    published = λ cmd w s h. h;
  }

  pub zones-run_steps :
      (tp : TaskPayload F) (steps : List ScenarioStep) (rounds : List Round) (w : World)
      → (run_steps c link task tp steps rounds w).0.zones ≡ w.zones
  zones-run_steps tp steps rounds w =
      run_steps-keeps c link task (λ x. x.zones ≡ w.zones) (zones-IsStable w.zones) tp steps rounds
        w refl

-- The last command on the bus is a `safe_stop` for the task's robot.
pub record StopSent {F : Type 0} (c : Codec F) (link : Link) (task : Task) (w : World)
    : Type 0 where
  pub time : Time
  pub earlier : List Command
  pub last : w.sent ≡ earlier ++ safe_stop_command c link task time ∷ []

module _ {F : Type 0} (c : Codec F) (link : Link) (task : Task)
    (accepts : (now : Time) → link (safe_stop_command c link task now) ≡ true) where
  stop_task-StopSent : (now : Time) (w : World) → StopSent c link task (stop_task c link task now w)
  unfolding stop_task send_safe_stop end_task publish_command safe_stop_command safety_allow
  stop_task-StopSent now w = record { time = now; earlier = w.sent; last = rw (accepts now) refl }

  wait-StopSent :
      (deadline : Time) (ps : List Poll) (w : World)
      → (wait c link task deadline ps w).1 ≡ stopped
      → StopSent c link task (wait c link task deadline ps w).0
  unfolding wait
  wait-StopSent deadline [] w q = cc
  wait-StopSent deadline (p ∷ ps) w q = elim (Bool-cases (ltb p.now deadline)) [
    | inl before ↦ elim (Bool-cases (stops task p (observe p w))) [
      | inl e ↦ rw (before, e) (stop_task-StopSent p.now (observe p w))
      | inr e ↦ rw (before, e) (wait-StopSent deadline ps (observe p w) (rw (before, e) at q))
    ]
    | inr after ↦ let e : StepEnd.held ≡ stopped = rw after at q in cc
  ]

  module _ (tp : TaskPayload F) where
    hold-StopSent :
        (d : ℤ) (now : Time) (ps : List Poll) (w : World)
        → (hold c link task tp d now ps w).1 ≡ stopped
        → StopSent c link task (hold c link task tp d now ps w).0
    unfolding hold
    hold-StopSent d now ps w q = elim (Bool-cases (is_positive d)) [
      | inl e ↦ rw e (wait-StopSent _ ps w (rw e at q))
      | inr e ↦ let k : StepEnd.held ≡ stopped = rw e at q in cc
    ]

    run_step-StopSent :
        (step : ScenarioStep) (now : Time) (ps : List Poll) (w : World)
        → (run_step c link task tp step now ps w).1 ≡ stopped
        → StopSent c link task (run_step c link task tp step now ps w).0
    unfolding run_step publish_command
    run_step-StopSent step now ps w q = elim (Bool-cases (safety_allow c cmd)) [
      | inl e ↦ elim (Bool-cases (link cmd)) [
        | inl l ↦ rw (e, l) (hold-StopSent _ now ps _ (rw (e, l) at q))
        | inr l ↦ let k : rejected ≡ stopped = rw (e, l) at q in cc
      ]
      | inr e ↦ let k : rejected ≡ stopped = rw e at q in cc
    ]
      where
        cmd : Command
        cmd = step_command c link task tp step now

    after_step-StopSent :
        (w : World) (end : StepEnd) (next : World × Verdict)
        → (end ≡ stopped → StopSent c link task w)
        → (next.1 ≡ finished cancelled → StopSent c link task next.0)
        → (after_step w end next).1 ≡ finished cancelled
        → StopSent c link task (after_step w end next).0
    unfolding after_step
    after_step-StopSent w starved next h k q = cc
    after_step-StopSent w rejected next h k q = cc
    after_step-StopSent w stopped next h k q = h refl
    after_step-StopSent w held next h k q = k q

    -- If the bus accepts the `safe_stop` commands for the task's robot, a run that ends as cancelled
    -- leaves such a command as the last one on the bus.
    pub run_steps-StopSent :
        (steps : List ScenarioStep) (rounds : List Round) (w : World)
        → (run_steps c link task tp steps rounds w).1 ≡ finished cancelled
        → StopSent c link task (run_steps c link task tp steps rounds w).0
    unfolding run_steps
    run_steps-StopSent [] [] w q = cc
    run_steps-StopSent [] (r ∷ rounds) w q = ground arith
    run_steps-StopSent (step ∷ steps) [] w q = cc
    run_steps-StopSent (step ∷ steps) (r ∷ rounds) w q =
        elim (Bool-cases (stops task r.check (observe r.check w))) [
          | inl e ↦ rw e (stop_task-StopSent r.check.now (observe r.check w))
          | inr e ↦ rw e (
              let (w', end) =
                run_step c link task tp step r.check.now r.waits (observe r.check w) in
              after_step-StopSent w' end (run_steps c link task tp steps rounds w')
                (run_step-StopSent step r.check.now r.waits (observe r.check w))
                (run_steps-StopSent steps rounds w') (rw e at q))
        ]
