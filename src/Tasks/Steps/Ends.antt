-- ===== src/Tasks/Steps/Ends.antt =====
-- A run of a scenario's steps ends: the loop that waits for the deadline sleeps half a second
-- between two looks at the clock.
use sai_aurosy.Prelude.{
  ◌+◌, ◌*◌, ◌≤◌, ◌<◌, ◌≡◌, ◌≢◌, refl, inl, inr, true, List, [], ◌∷◌, arith, ltb, ltb→lt, length,
  Bool-cases,
}
use sai_aurosy.Prelude.Int.{ℤ, is_positive, to_ℕ}
use sai_aurosy.Hal.{Time, Command}
use sai_aurosy.Codec.{Codec, TaskPayload}
use sai_aurosy.Telemetry.{Link, publish_command}
use sai_aurosy.Arbiter.Safety.{safety_allow}
use sai_aurosy.Tasks.Types.{Task, ScenarioStep}
use sai_aurosy.Tasks.World.{World}
use sai_aurosy.Tasks.Steps.{
  Poll, Round, observe, stops, StepEnd, starved, rejected, stopped, held, Verdict, unfinished, wait,
  hold, run_step, run_steps, after_step, step_command, step_duration,
}

-- The polls of a wait: the first not before `t`, each later one at least half a second on.
abbrev pub Paced : Time → List Poll → Type 0
Paced t [] = Unit
Paced t (p ∷ ps) = (t ≤ p.now) × Paced (p.now + 500) ps

module _ {F : Type 0} (c : Codec F) (link : Link) (task : Task) where
  wait-ends :
      (deadline t : Time) (ps : List Poll) (w : World)
      → Paced t ps
      → t < deadline + 500
      → deadline + 500 ≤ t + 500 * length ps
      → (wait c link task deadline ps w).1 ≢ starved
  unfolding wait
  wait-ends deadline t [] w h l k = absurd (omega arith)
  wait-ends deadline t (p ∷ ps) w h l k = elim (Bool-cases (ltb p.now deadline)) [
    | inl before ↦ elim (Bool-cases (stops task p (observe p w))) [
      | inl e ↦ rw (before, e) (λ q. cc)
      | inr e ↦
          rw (before, e)
            (wait-ends deadline (p.now + 500) ps (observe p w) h.1
              (omega (arith, ltb→lt p.now deadline before)) (omega arith))
    ]
    | inr after ↦ rw after (λ q. cc)
  ]

  module _ (tp : TaskPayload F) where
    -- Enough rounds for the steps: those of a step that is held for `d` seconds have at least
    -- `2 * d + 1` polls of its wait, paced by the sleeps, and one round is left for the completion.
    abbrev pub IsEnough : List ScenarioStep → List Round → Type 0
    IsEnough [] rounds = 0 < length rounds
    IsEnough (step ∷ steps) [] = ⊥
    IsEnough (step ∷ steps) (r ∷ rounds) =
        Paced r.check.now r.waits
        × (is_positive (step_duration c link task tp step) ≡ true
            → 2 * to_ℕ (step_duration c link task tp step) + 1 ≤ length r.waits)
        × IsEnough steps rounds

    hold-ends :
        (d : ℤ) (now : Time) (ps : List Poll) (w : World)
        → Paced now ps
        → (is_positive d ≡ true → 2 * to_ℕ d + 1 ≤ length ps)
        → (hold c link task tp d now ps w).1 ≢ starved
    unfolding hold
    hold-ends d now ps w h k = elim (Bool-cases (is_positive d)) [
      | inl e ↦ rw e (wait-ends (now + to_ℕ d * 1000) now ps w h (omega arith) (omega (arith, k e)))
      | inr e ↦ rw e (λ q. cc)
    ]

    run_step-ends :
        (step : ScenarioStep) (now : Time) (ps : List Poll) (w : World)
        → Paced now ps
        → (is_positive (step_duration c link task tp step) ≡ true
            → 2 * to_ℕ (step_duration c link task tp step) + 1 ≤ length ps)
        → (run_step c link task tp step now ps w).1 ≢ starved
    unfolding run_step publish_command
    run_step-ends step now ps w h k = elim (Bool-cases (safety_allow c cmd)) [
      | inl e ↦ elim (Bool-cases (link cmd)) [
        | inl l ↦ rw (e, l) (hold-ends _ now ps _ h k)
        | inr l ↦ rw (e, l) (λ q. cc)
      ]
      | inr e ↦ rw e (λ q. cc)
    ]
      where
        cmd : Command
        cmd = step_command c link task tp step now

    after_step-ends :
        (w : World) (end : StepEnd) (next : World × Verdict)
        → end ≢ starved
        → next.1 ≢ unfinished
        → (after_step w end next).1 ≢ unfinished
    unfolding after_step
    after_step-ends w starved next n m = absurd (n refl)
    after_step-ends w rejected next n m = λ q. cc
    after_step-ends w stopped next n m = λ q. cc
    after_step-ends w held next n m = m

    -- A run of a scenario's steps ends, whatever else happens, if there is a round for each step and one
    -- for the completion, and a step that is held for `d` seconds has at least `2 * d + 1` polls of its
    -- wait, paced by the half-second sleeps.
    pub run_steps-ends :
        (steps : List ScenarioStep) (rounds : List Round) (w : World)
        → IsEnough steps rounds
        → (run_steps c link task tp steps rounds w).1 ≢ unfinished
    unfolding run_steps
    run_steps-ends [] [] w h = absurd (omega arith)
    run_steps-ends [] (r ∷ rounds) w h = λ q. cc
    run_steps-ends (step ∷ steps) [] w h = absurd h
    run_steps-ends (step ∷ steps) (r ∷ rounds) w h =
        elim (Bool-cases (stops task r.check (observe r.check w))) [
          | inl e ↦ rw e (λ q. cc)
          | inr e ↦ rw e (
              let (w', end) =
                run_step c link task tp step r.check.now r.waits (observe r.check w) in
              after_step-ends w' end (run_steps c link task tp steps rounds w')
                (run_step-ends step r.check.now r.waits (observe r.check w) h.0 h.1)
                (run_steps-ends steps rounds w' h.2))
        ]
