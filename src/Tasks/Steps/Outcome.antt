-- ===== src/Tasks/Steps/Outcome.antt =====
-- How a run of a scenario's steps leaves the task: its stored status and its completion event.
use sai_aurosy.Prelude.{
  ℕ, suc, ◌+◌, ◌≡◌, refl, ◌∙◌, inl, inr, true, some, List, [], ◌∷◌, ◌++◌, String, ◌==◌, eq_iff,
  eq_refl, arith, ltb, is_some, if◌then◌else◌, Bool-cases, Option-cases,
}
use sai_aurosy.Prelude.Int.{ℤ, is_positive}
use sai_aurosy.Dict
use sai_aurosy.Hal.{Time}
use sai_aurosy.Codec.{Codec, TaskPayload}
use sai_aurosy.Telemetry.{Link}
use sai_aurosy.Arbiter.Safety.{safety_allow}
use sai_aurosy.Tasks.Types.{Task, Status, completed, failed, cancelled, ScenarioStep}
use sai_aurosy.Tasks.Store as TaskStore
use sai_aurosy.Tasks.Store.Laws.{get-with_found}
use sai_aurosy.Tasks.World.{
  World, Event, started, ended, zone_acquired, zone_released, delegated, end_task, stop_task,
  send_safe_stop, safe_stop_command,
}
use sai_aurosy.Tasks.Steps.{
  Poll, Round, cancel_all, observe, stops, StepEnd, starved, rejected, stopped, held, Verdict,
  unfinished, finished, wait, hold, run_step, run_steps, after_step, step_command,
}

-- How many completions of a task the callbacks were told of.
unfoldable pub endings : String → List Event → ℕ
endings id [] = 0
endings id (ended x r st ∷ es) = let rest = endings id es in if x == id then suc rest else rest
endings id (started x r s z ∷ es) = endings id es
endings id (zone_acquired r z x ∷ es) = endings id es
endings id (zone_released r z x ∷ es) = endings id es
endings id (delegated x r t o ∷ es) = endings id es

pub endings-append :
    (id : String) (es : List Event) (e : Event)
    → endings id (es ++ e ∷ []) ≡ endings id es + endings id (e ∷ [])
unfolding endings
endings-append id [] e = ground arith
endings-append id (ended x r st ∷ es) e = ground (arith, endings-append id es e)
endings-append id (started x r s z ∷ es) e = endings-append id es e
endings-append id (zone_acquired r z x ∷ es) e = endings-append id es e
endings-append id (zone_released r z x ∷ es) e = endings-append id es e
endings-append id (delegated x r t o ∷ es) e = endings-append id es e

-- The store has the task, with this status and with a completion time.
pub record StoredAs (id : String) (st : Status) (s : TaskStore.Store) : Type 0 where
  pub stored : Task
  pub found : TaskStore.get_task id s ≡ some stored
  pub status : stored.status ≡ st
  pub time : Time
  pub at : stored.completed_at ≡ some time

abbrev pub Has : String → World → Type 0
Has id w = is_some (Dict.get w.tasks id) ≡ true

pub Has-update :
    (id k : String) (f : Task → Task) (s : TaskStore.Store)
    → is_some (Dict.get s id) ≡ true
    → is_some (Dict.get (TaskStore.with_found (Dict.get s k) f k s) id) ≡ true
Has-update id k f s h = rw (get-with_found f k id s) (ground (arith, eq_iff k id))

Has-cancel_all :
    (ids : List String) (now : Time) (id : String) (s : TaskStore.Store)
    → is_some (Dict.get s id) ≡ true
    → is_some (Dict.get (cancel_all ids now s) id) ≡ true
unfolding cancel_all TaskStore.update_status
Has-cancel_all [] now id s h = h
Has-cancel_all (k ∷ ids) now id s h = Has-cancel_all ids now id _ (Has-update id k _ s h)

pub Has-observe : (p : Poll) (id : String) (w : World) → Has id w → Has id (observe p w)
unfolding observe
Has-observe p id w h = Has-cancel_all p.cancels p.now id w.tasks h

end_task-StoredAs :
    (task : Task) (st : Status) (now : Time) (w : World)
    → Has task.id w
    → StoredAs task.id st (end_task task st now w).tasks
unfolding end_task TaskStore.update_status_and_completed_at TaskStore.get_task
end_task-StoredAs task st now w h = elim (Option-cases (Dict.get w.tasks task.id)) [
  | inl e ↦ absurd (ground (arith, e))
  | inr (t, e) ↦ record {
    stored = record t { status = st; updated_at = now; completed_at = some now };
    found = rw (get-with_found _ task.id task.id w.tasks) (rw (eq_refl task.id, e));
    status = refl;
    time = now;
    at = refl;
  }
]

end_task-endings :
    (task : Task) (st : Status) (now : Time) (w : World)
    → endings task.id (end_task task st now w).events ≡ endings task.id w.events + 1
unfolding end_task endings
end_task-endings task st now w =
    ground
      (arith, endings-append task.id w.events (ended task.id task.robot_id st), eq_refl task.id)

module _ (task : Task) where
  -- The callbacks were told of no completion, or of one, with the stored status.
  abbrev pub Quiet : World → World → Type 0
  Quiet w w' = endings task.id w'.events ≡ endings task.id w.events

  abbrev pub Closed : Status → World → World → Type 0
  Closed st w w' =
      (endings task.id w'.events ≡ endings task.id w.events + 1) × StoredAs task.id st w'.tasks

  abbrev pub Outcome : World → World → Verdict → Type 0
  Outcome w w' unfinished = Quiet w w'
  Outcome w w' (finished st) = Closed st w w'

  StepOutcome : World → World → StepEnd → Type 0
  StepOutcome w w' starved = Quiet w w'
  StepOutcome w w' rejected = Closed failed w w'
  StepOutcome w w' stopped = Closed cancelled w w'
  StepOutcome w w' held = Quiet w w' × Has task.id w'

  StepOutcome-after :
      (w w' : World) (r : World × StepEnd)
      → Quiet w w'
      → StepOutcome w' r.0 r.1
      → StepOutcome w r.0 r.1
  unfolding StepOutcome
  StepOutcome-after w w' (w'', starved) q o = o ∙ q
  StepOutcome-after w w' (w'', rejected) q o = (omega (arith, o.0, q), o.1)
  StepOutcome-after w w' (w'', stopped) q o = (omega (arith, o.0, q), o.1)
  StepOutcome-after w w' (w'', held) q o = (o.0 ∙ q, o.1)

  pub Outcome-after :
      (w w' : World) (r : World × Verdict) → Quiet w w' → Outcome w' r.0 r.1 → Outcome w r.0 r.1
  Outcome-after w w' (w'', unfinished) q o = o ∙ q
  Outcome-after w w' (w'', finished st) q o = (omega (arith, o.0, q), o.1)

  pub end_task-Closed :
      (st : Status) (now : Time) (w : World) → Has task.id w → Closed st w (end_task task st now w)
  end_task-Closed st now w h = (end_task-endings task st now w, end_task-StoredAs task st now w h)

  after_step-Outcome :
      (w w' : World) (end : StepEnd) (next : World × Verdict)
      → StepOutcome w w' end
      → (Has task.id w' → Outcome w' next.0 next.1)
      → Outcome w (after_step w' end next).0 (after_step w' end next).1
  unfolding StepOutcome after_step
  after_step-Outcome w w' starved next o ih = o
  after_step-Outcome w w' rejected next o ih = o
  after_step-Outcome w w' stopped next o ih = o
  after_step-Outcome w w' held next o ih = Outcome-after w w' next o.0 (ih o.1)

module _ {F : Type 0} (c : Codec F) (link : Link) (task : Task) where
  stop_task-Closed :
      (now : Time) (w : World)
      → Has task.id w
      → Closed task cancelled w (stop_task c link task now w)
  unfolding stop_task send_safe_stop
  stop_task-Closed now w h =
      elim (Bool-cases (safety_allow c (safe_stop_command c link task now))) [
        | inl e ↦ rw e (end_task-Closed task cancelled now w h)
        | inr e ↦ rw e (end_task-Closed task cancelled now w h)
      ]

  wait-StepOutcome :
      (deadline : Time) (ps : List Poll) (w : World)
      → Has task.id w
      → let (w', end) = wait c link task deadline ps w in StepOutcome task w w' end
  unfolding wait StepOutcome
  wait-StepOutcome deadline [] w h = refl
  wait-StepOutcome deadline (p ∷ ps) w h = elim (Bool-cases (ltb p.now deadline)) [
    | inl before ↦ elim (Bool-cases (stops task p (observe p w))) [
      | inl e ↦ rw (before, e) (stop_task-Closed p.now (observe p w) (Has-observe p task.id w h))
      | inr e ↦
          rw (before, e)
            (StepOutcome-after task w (observe p w) (wait c link task deadline ps (observe p w))
              refl (wait-StepOutcome deadline ps (observe p w) (Has-observe p task.id w h)))
    ]
    | inr after ↦ rw after (refl, Has-observe p task.id w h)
  ]

  module _ (tp : TaskPayload F) where
    hold-StepOutcome :
        (d : ℤ) (now : Time) (ps : List Poll) (w : World)
        → Has task.id w
        → let (w', end) = hold c link task tp d now ps w in StepOutcome task w w' end
    unfolding hold StepOutcome
    hold-StepOutcome d now ps w h = elim (Bool-cases (is_positive d)) [
      | inl e ↦ rw e (wait-StepOutcome _ ps w h)
      | inr e ↦ rw e (refl, h)
    ]

    run_step-StepOutcome :
        (step : ScenarioStep) (now : Time) (ps : List Poll) (w : World)
        → Has task.id w
        → let (w', end) = run_step c link task tp step now ps w in StepOutcome task w w' end
    unfolding run_step StepOutcome
    run_step-StepOutcome step now ps w h =
        elim (Bool-cases (safety_allow c (step_command c link task tp step now))) [
          | inl e ↦ elim (Bool-cases (link (step_command c link task tp step now))) [
            | inl l ↦ rw (e, l) (hold-StepOutcome _ now ps _ h)
            | inr l ↦ rw (e, l) (end_task-Closed task failed now w h)
          ]
          | inr e ↦ rw e (end_task-Closed task failed now w h)
        ]

    -- If the store has the task at the start, a run of a scenario's steps either is unfinished, with
    -- no completion of the task announced, or announces exactly one completion and leaves the task
    -- in the store with the status that it ended with and a completion time.
    pub run_steps-Outcome :
        (steps : List ScenarioStep) (rounds : List Round) (w : World)
        → Has task.id w
        → let (w', v) = run_steps c link task tp steps rounds w in Outcome task w w' v
    unfolding run_steps
    run_steps-Outcome [] [] w h = refl
    run_steps-Outcome [] (r ∷ rounds) w h =
        end_task-Closed task completed r.check.now (observe r.check w)
          (Has-observe r.check task.id w h)
    run_steps-Outcome (step ∷ steps) [] w h = refl
    run_steps-Outcome (step ∷ steps) (r ∷ rounds) w h =
        elim (Bool-cases (stops task r.check (observe r.check w))) [
          | inl e ↦ rw e (stop_task-Closed r.check.now (observe r.check w) seen)
          | inr e ↦ rw e (
              let (w', end) =
                run_step c link task tp step r.check.now r.waits (observe r.check w) in
              let next = run_steps c link task tp steps rounds w' in
              Outcome-after task w (observe r.check w) (after_step w' end next) refl (
                after_step-Outcome task (observe r.check w) w' end next
                  (run_step-StepOutcome step r.check.now r.waits (observe r.check w) seen)
                  (run_steps-Outcome steps rounds w')))
        ]
      where
        seen : Has task.id (observe r.check w)
        seen = Has-observe r.check task.id w h
