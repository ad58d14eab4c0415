-- ===== src/Tasks/Runner/Zoned.antt =====
-- What a run does to the zones: it gives back what it took.
use sai_aurosy.Prelude.{
  ◌≡◌, refl, ap, ◌∙◌, inl, inr, Bool, true, false, not, Option, none, some, List, String, ◌==◌,
  eq_iff, eq_refl, arith, is_some, if◌then◌else◌, Bool-cases,
}
use sai_aurosy.Hal.{Time}
use sai_aurosy.Codec.{Codec, TaskPayload}
use sai_aurosy.Telemetry.{Link}
use sai_aurosy.Coordinator as Zones
use sai_aurosy.Coordinator.{acquire_zone}
use sai_aurosy.Coordinator.Locks.{
  IsValid, acquire_zone-IsValid, holder, holds, holder-acquire, holder-release, acquired_iff_free,
}
use sai_aurosy.Tasks.Types.{Task, Status, Scenario}
use sai_aurosy.Tasks.World.{World, end_task, emit, zone_acquired}
use sai_aurosy.Tasks.Steps.{Round, Verdict, unfinished, finished, run_steps}
use sai_aurosy.Tasks.Steps.Commands.{zones-run_steps}
use sai_aurosy.Tasks.Runner.{Setup, ran, coordinates, run_scenario, in_zone, release}

module _ {F : Type 0} (c : Codec F) (link : Link) (cfg : Setup) (task : Task) where
  release-holders :
      (zone : String) (r : World × Verdict) (st : Status) (o : String → Option String)
      → (release c link cfg task zone r).1 ≡ ran (finished st)
      → (o zone ≡ none)
      → IsValid r.0.zones
      → ((y : String) → holder r.0.zones y ≡ (if zone == y then some task.robot_id else o y))
      → (y : String) → holder (release c link cfg task zone r).0.zones y ≡ o y
  unfolding release emit holds
  release-holders zone (w, unfinished) st o q free v h y = absurd (ground arith)
  release-holders zone (w, finished s) st o q free v h y =
      rw (holder-release w.zones v task.robot_id zone y)
        (ground (arith, h zone, h y, eq_iff zone y, eq_refl zone, eq_refl task.robot_id))

  in_zone-holders :
      (tp : TaskPayload F) (scenario : Scenario) (rounds : List Round) (now : Time) (w : World)
      (a : Zones.Store × Bool) (st : Status)
      → (in_zone c link cfg task tp scenario rounds now w a).1 ≡ ran (finished st)
      → IsValid a.0
      → a.1 ≡ not (is_some (holder w.zones tp.zone_id))
      → ((y : String)
          → holder a.0 y ≡ (
              if tp.zone_id == y
              then (if is_some (holder w.zones tp.zone_id)
                  then holder w.zones tp.zone_id
                  else some task.robot_id)
              else holder w.zones y))
      → (y : String)
      → holder (in_zone c link cfg task tp scenario rounds now w a).0.zones y ≡ holder w.zones y
  unfolding in_zone end_task emit
  in_zone-holders tp scenario rounds now w (zones, false) st q v b h y =
      rw (h y) (ground (arith, eq_iff tp.zone_id y))
  in_zone-holders tp scenario rounds now w (zones, true) st q v b h y =
      release-holders tp.zone_id done st (holder w.zones) q free (rw kept v)
        (λ x. rw kept (held_during x)) y
    where
      acquired : World
      acquired = emit (zone_acquired task.robot_id tp.zone_id task.id) (record w { zones = zones })

      done : World × Verdict
      done = run_steps c link task tp scenario.steps rounds acquired

      kept : done.0.zones ≡ zones
      kept = zones-run_steps c link task tp scenario.steps rounds acquired

      free : holder w.zones tp.zone_id ≡ none
      free = ground arith

      held_during :
          (x : String)
          → holder zones x ≡ (if tp.zone_id == x then some task.robot_id else holder w.zones x)
      held_during x = h x ∙ rw free refl

  -- A run of a task that ends leaves every zone of a valid coordinator with the holder that it had
  -- before: a zone that the run acquired is free again, and one that it could not acquire stays
  -- with its robot.
  pub run_scenario-holders :
      (tp : TaskPayload F) (scenario : Scenario) (rounds : List Round) (now : Time) (w : World)
      (st : Status)
      → IsValid w.zones
      → (run_scenario c link cfg task tp scenario rounds now w).1 ≡ ran (finished st)
      → (y : String)
      → holder (run_scenario c link cfg task tp scenario rounds now w).0.zones y ≡ holder w.zones y
  unfolding run_scenario
  run_scenario-holders tp scenario rounds now w st v q y =
      elim (Bool-cases (coordinates c link cfg task tp)) [
        | inl e ↦ rw e (
            in_zone-holders tp scenario rounds now w
              (acquire_zone task.robot_id tp.zone_id now w.zones) st (rw e at q)
              (acquire_zone-IsValid w.zones v task.robot_id tp.zone_id now)
              (acquired_iff_free w.zones v task.robot_id tp.zone_id now)
              (λ x. holder-acquire w.zones v task.robot_id tp.zone_id x now) y)
        | inr e ↦
            rw e (ap (λ z. holder z y) (zones-run_steps c link task tp scenario.steps rounds w))
      ]
