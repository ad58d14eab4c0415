-- ===== src/SimRobot/Unmoved.antt =====
-- A simulated robot that is not on its way stays where it is.
use sai_aurosy.Prelude.{
  ◌≡◌, ◌≢◌, refl, ◌∙◌, inl, inr, Bool, true, false, Option, none, some, List, [], ◌∷◌, All, ◌==◌,
  eq_iff, arith, Bool-cases,
}
use sai_aurosy.Hal.{Time, Command}
use sai_aurosy.SimRobot.{
  FailureType, navigation_timeout, offline_mid_route, safe_stop_mid_route, battery_low,
  command_rejected, delayed_arrival, unknown_failure, Numbers, FailureConfig, Position, SimState,
  SimRobot, set_failure_config,
}
use sai_aurosy.SimRobot.Commands.{
  is_moving, handle_safe_stop, handle_release_control, handle_walk_mode, handle_stand_mode,
  handle_speak, dispatch, handle_command,
}
use sai_aurosy.SimRobot.Ticks.{
  triggered, slow_down, strike, apply_failure, publish, after_failure, tick, Event, ticks, gets,
  fails_by, resets, happen, run,
}

module _ {F : Type 0} (num : Numbers F) where
  -- The robot does not move, and stands here.
  abbrev pub Stands : Position F → SimRobot F → Type 0
  Stands p r = (r.state.position ≡ p) × (is_moving r.state.mode ≡ false)

  -- Every event but a navigate_to command and a reset.
  abbrev pub Calm : Event num → Type 0
  Calm (ticks now) = Unit
  Calm (gets cmd) = cmd.command ≢ "navigate_to"
  Calm (fails_by cfg) = Unit
  Calm (resets now) = ⊥

  strike-Stands :
      (p : Position F) (cfg : FailureConfig F) (kind : FailureType) (r : SimRobot F)
      → Stands p r
      → Stands p (strike num cfg kind r).0
  unfolding strike is_moving slow_down
  strike-Stands p cfg navigation_timeout r h = (h.0, refl)
  strike-Stands p cfg offline_mid_route r h = (h.0, refl)
  strike-Stands p cfg safe_stop_mid_route r h = (h.0, refl)
  strike-Stands p cfg battery_low r h = h
  strike-Stands p cfg command_rejected r h = (h.0, refl)
  strike-Stands p cfg delayed_arrival r h = ground (arith, h.0, h.1)
  strike-Stands p cfg unknown_failure r h = h

  apply_failure-Stands :
      (p : Position F) (o : Option (FailureConfig F)) (r : SimRobot F)
      → Stands p r
      → Stands p (apply_failure num o r).0
  unfolding apply_failure
  apply_failure-Stands p none r h = h
  apply_failure-Stands p (some cfg) r h = elim (Bool-cases (triggered num cfg r.state)) [
    | inl t ↦ simp t (strike-Stands p cfg cfg.kind r h)
    | inr t ↦ simp t h
  ]

  after_failure-Stands :
      (p : Position F) (now : Time) (q : SimRobot F × Bool)
      → Stands p q.0
      → Stands p (after_failure num now q)
  unfolding after_failure publish
  after_failure-Stands p now (r, true) h = h
  after_failure-Stands p now (r, false) h = simp (h.1) (h.0, refl)

  dispatch-unmoved :
      (cmd : Command) (s : SimState F)
      → cmd.command ≢ "navigate_to"
      → is_moving s.mode ≡ false
      → ((dispatch num cmd s).position ≡ s.position) × (is_moving (dispatch num cmd s).mode ≡ false)
  unfolding dispatch handle_safe_stop handle_release_control handle_walk_mode handle_stand_mode
      handle_speak is_moving
  dispatch-unmoved cmd s n h = ground (arith, eq_iff cmd.command "navigate_to")

  happen-Stands :
      (p : Position F) (e : Event num) (r : SimRobot F)
      → Calm e
      → Stands p r
      → Stands p (happen num e r)
  unfolding happen tick handle_command set_failure_config
  happen-Stands p (ticks now) r c h =
      after_failure-Stands p now _ (apply_failure-Stands p r.failure_config _ h)
  happen-Stands p (gets cmd) r c h = elim (Bool-cases (cmd.robot_id == r.id)) [
    | inr e ↦ simp e h
    | inl e ↦
        let (q, m) =
          dispatch-unmoved cmd
            (record r.state { last_command = cmd.command; updated_at = cmd.timestamp }) c (h.1) in
        simp e (q ∙ h.0, m)
  ]
  happen-Stands p (fails_by cfg) r c h = h
  happen-Stands p (resets now) r c h = absurd c

  -- Ticks, failures and all commands but navigate_to leave the robot where it stands.
  pub run-Stands :
      (p : Position F) (es : List (Event num)) (r : SimRobot F)
      → All Calm es
      → Stands p r
      → Stands p (run num es r)
  unfolding run
  run-Stands p [] r c h = h
  run-Stands p (e ∷ es) r c h = run-Stands p es _ c.1 (happen-Stands p e r c.0 h)
