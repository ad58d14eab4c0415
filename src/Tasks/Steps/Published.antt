-- ===== src/Tasks/Steps/Published.antt =====
-- What a completed run of a scenario's steps has published.
use mathlib.Core.List.{append-nil, append_assoc}
use sai_aurosy.Prelude.{◌≡◌, refl, sym, ◌∙◌, inl, inr, List, [], ◌∷◌, ◌++◌, arith, ltb, Bool-cases}
use sai_aurosy.Prelude.Int.{ℤ, is_positive}
use sai_aurosy.Hal.{Time, Command}
use sai_aurosy.Codec.{Codec, TaskPayload}
use sai_aurosy.Telemetry.{Link, publish_command}
use sai_aurosy.Arbiter.Safety.{safety_allow}
use sai_aurosy.Tasks.Types.{Task, completed, ScenarioStep}
use sai_aurosy.Tasks.World.{World, end_task}
use sai_aurosy.Tasks.Steps.{
  Poll, Round, observe, stops, StepEnd, starved, rejected, stopped, held, Verdict, finished, wait,
  hold, run_step, run_steps, after_step, step_command,
}

module _ {F : Type 0} (c : Codec F) (link : Link) (task : Task) where
  wait-sent :
      (deadline : Time) (ps : List Poll) (w : World)
      → (wait c link task deadline ps w).1 ≡ held
      → (wait c link task deadline ps w).0.sent ≡ w.sent
  unfolding wait observe
  wait-sent deadline [] w q = cc
  wait-sent deadline (p ∷ ps) w q = elim (Bool-cases (ltb p.now deadline)) [
    | inl before ↦ elim (Bool-cases (stops task p (observe p w))) [
      | inl e ↦ let k : stopped ≡ held = rw (before, e) at q in cc
      | inr e ↦ rw (before, e) (wait-sent deadline ps (observe p w) (rw (before, e) at q))
    ]
    | inr after ↦ rw after refl
  ]

  module _ (tp : TaskPayload F) where
    hold-sent :
        (d : ℤ) (now : Time) (ps : List Poll) (w : World)
        → (hold c link task tp d now ps w).1 ≡ held
        → (hold c link task tp d now ps w).0.sent ≡ w.sent
    unfolding hold
    hold-sent d now ps w q = elim (Bool-cases (is_positive d)) [
      | inl e ↦ rw e (wait-sent _ ps w (rw e at q))
      | inr e ↦ rw e refl
    ]

    run_step-sent :
        (step : ScenarioStep) (now : Time) (ps : List Poll) (w : World)
        → (run_step c link task tp step now ps w).1 ≡ held
        → (run_step c link task tp step now ps w).0.sent
          ≡ w.sent ++ step_command c link task tp step now ∷ []
    unfolding run_step publish_command
    run_step-sent step now ps w q = elim (Bool-cases (safety_allow c cmd)) [
      | inl e ↦ elim (Bool-cases (link cmd)) [
        | inl l ↦ rw (e, l) (hold-sent _ now ps _ (rw (e, l) at q))
        | inr l ↦ let k : rejected ≡ held = rw (e, l) at q in cc
      ]
      | inr e ↦ let k : rejected ≡ held = rw e at q in cc
    ]
      where
        cmd : Command
        cmd = step_command c link task tp step now

    -- The command of each step, with the time of the poll before the step.
    unfoldable pub step_commands : List ScenarioStep → List Round → List Command
    step_commands [] rounds = []
    step_commands (step ∷ steps) [] = []
    step_commands (step ∷ steps) (r ∷ rounds) =
        step_command c link task tp step r.check.now ∷ step_commands steps rounds

    -- If a step was held to its end, its command was added, and the steps behind it come next.
    after_step-sent :
        (w' : World) (end : StepEnd) (next : World × Verdict) (before mine rest : List Command)
        → (end ≡ held → w'.sent ≡ before ++ mine)
        → (next.1 ≡ finished completed → next.0.sent ≡ w'.sent ++ rest)
        → (after_step w' end next).1 ≡ finished completed
        → (after_step w' end next).0.sent ≡ before ++ (mine ++ rest)
    unfolding after_step
    after_step-sent w' starved next before mine rest h k q = cc
    after_step-sent w' rejected next before mine rest h k q = ground arith
    after_step-sent w' stopped next before mine rest h k q = ground arith
    after_step-sent w' held next before mine rest h k q =
        k q ∙ rw (h refl) (append_assoc before mine rest)

    -- A run of a scenario's steps that completes has published the command of every step of the
    -- scenario, once, in order and with the time at which the step began, and nothing else.
    pub run_steps-sent :
        (steps : List ScenarioStep) (rounds : List Round) (w : World)
        → (run_steps c link task tp steps rounds w).1 ≡ finished completed
        → (run_steps c link task tp steps rounds w).0.sent ≡ w.sent ++ step_commands steps rounds
    unfolding run_steps step_commands observe
    run_steps-sent [] [] w q = cc
    run_steps-sent [] (r ∷ rounds) w q = unfold end_task in sym (append-nil w.sent)
    run_steps-sent (step ∷ steps) [] w q = cc
    run_steps-sent (step ∷ steps) (r ∷ rounds) w q =
        elim (Bool-cases (stops task r.check (observe r.check w))) [
          | inl e ↦ ground arith
          | inr e ↦ rw e (
              let (w', end) =
                run_step c link task tp step r.check.now r.waits (observe r.check w) in
              after_step-sent w' end (run_steps c link task tp steps rounds w') w.sent
                (step_command c link task tp step r.check.now ∷ []) (step_commands steps rounds)
                (run_step-sent step r.check.now r.waits (observe r.check w))
                (run_steps-sent steps rounds w') (rw e at q))
        ]
