-- ===== src/SimRobot/Consistent.antt =====
-- What the mode of a simulated robot says of its position and target.
use sai_aurosy.Prelude.{
  ◌≡◌, ◌≢◌, ap, refl, sym, ◌∙◌, not, ◌&&◌, ◌||◌, inl, inr, Bool, true, false, Option, none, some,
  List, [], ◌∷◌, String, ◌==◌, Bool-cases, if◌then◌else◌,
}
use sai_aurosy.Hal.{Time, Command}
use sai_aurosy.SimRobot.{
  SimMode, arrived, safe_stop, FailureType, navigation_timeout, offline_mid_route,
  safe_stop_mid_route, battery_low, command_rejected, delayed_arrival, unknown_failure,
  NavigatePayload, Numbers, FailureConfig, Position, SimState, SimRobot, at_base, new_state, reset,
  set_failure_config,
}
use sai_aurosy.SimRobot.Commands.{
  is_moving, parse_coordinates, go_to, navigate, handle_navigate_to, handle_safe_stop,
  handle_release_control, handle_walk_mode, handle_stand_mode, handle_speak, dispatch,
  handle_command,
}
use sai_aurosy.SimRobot.Ticks.{
  triggered, slow_down, strike, apply_failure, publish, move_along, arrive, move, after_failure,
  tick, Event, ticks, gets, fails_by, resets, happen, run,
}

module _ {F : Type 0} (num : Numbers F) where
  -- A robot that arrived stands at its target; a stopped one has no target.
  pub record IsConsistent (s : SimState F) : Type 0 where
    pub at_target : s.mode ≡ arrived → s.position ≡ s.target_position
    pub no_way_left : s.mode ≡ arrived → s.distance_to_target ≡ num.zero_float
    pub no_target : s.mode ≡ safe_stop → s.target_position ≡ at_base num
    pub no_route : s.mode ≡ safe_stop → s.route_nodes ≡ []

  -- A mode that is neither arrived nor stopped asks for nothing.
  free-IsConsistent : (s : SimState F) → s.mode ≢ arrived → s.mode ≢ safe_stop → IsConsistent s
  free-IsConsistent s a b = record {
    at_target = λ e. absurd (a e);
    no_way_left = λ e. absurd (a e);
    no_target = λ e. absurd (b e);
    no_route = λ e. absurd (b e);
  }

  go_to-IsConsistent :
      (p : NavigatePayload) (o : Option (Position F)) (s : SimState F)
      → IsConsistent s
      → IsConsistent (go_to num p o s)
  unfolding go_to
  go_to-IsConsistent p none s h = h
  go_to-IsConsistent p (some target) s h = free-IsConsistent _ (λ e. cc e) (λ e. cc e)

  navigate-IsConsistent :
      (p : NavigatePayload) (s : SimState F) → IsConsistent s → IsConsistent (navigate num p s)
  unfolding navigate
  navigate-IsConsistent p s h = elim (Bool-cases (p.target_coordinates == "")) [
    | inl e ↦ simp e h
    | inr e ↦ simp e (go_to-IsConsistent p (parse_coordinates num p.target_coordinates) s h)
  ]

  either_IsConsistent :
      (b : Bool) (s t : SimState F)
      → IsConsistent s
      → IsConsistent t
      → IsConsistent (if b then s else t)
  either_IsConsistent true s t h k = h
  either_IsConsistent false s t h k = k

  stop-IsConsistent : (s : SimState F) → IsConsistent (handle_safe_stop num s)
  unfolding handle_safe_stop
  stop-IsConsistent s = record {
    at_target = λ e. cc e;
    no_way_left = λ e. cc;
    no_target = λ e. refl;
    no_route = λ e. refl;
  }

  release-IsConsistent : (s : SimState F) → IsConsistent (handle_release_control num s)
  unfolding handle_release_control
  release-IsConsistent s = free-IsConsistent _ (λ e. cc e) (λ e. cc e)

  walk-IsConsistent : (s : SimState F) → IsConsistent (record s { mode = SimMode.walk })
  walk-IsConsistent s = free-IsConsistent _ (λ e. cc e) (λ e. cc e)

  stand-IsConsistent : (s : SimState F) → IsConsistent (record s { mode = SimMode.stand })
  stand-IsConsistent s = free-IsConsistent _ (λ e. cc e) (λ e. cc e)

  same_place :
      (s t : SimState F)
      → t.mode ≡ s.mode
      → t.position ≡ s.position
      → t.target_position ≡ s.target_position
      → t.distance_to_target ≡ s.distance_to_target
      → t.route_nodes ≡ s.route_nodes
      → IsConsistent s
      → IsConsistent t
  same_place s t m p g d r h = record {
    at_target = λ e. cc (p, g, h.at_target (sym m ∙ e));
    no_way_left = λ e. cc (d, h.no_way_left (sym m ∙ e));
    no_target = λ e. cc (g, h.no_target (sym m ∙ e));
    no_route = λ e. cc (r, h.no_route (sym m ∙ e));
  }

  dispatch-IsConsistent :
      (cmd : Command) (s : SimState F) → IsConsistent s → IsConsistent (dispatch num cmd s)
  unfolding dispatch handle_navigate_to handle_walk_mode handle_stand_mode handle_speak
  dispatch-IsConsistent cmd s h =
      either_IsConsistent (cmd.command == "navigate_to") _ _ (navigate-IsConsistent _ s h) (
        either_IsConsistent (cmd.command == "safe_stop") _ _ (stop-IsConsistent s) (
          either_IsConsistent (cmd.command == "release_control") _ _ (release-IsConsistent s) (
            either_IsConsistent (cmd.command == "walk_mode") _ _
              (either_IsConsistent (is_moving s.mode) _ _ h (walk-IsConsistent s))
              (either_IsConsistent (cmd.command == "stand_mode" || cmd.command == "zero_mode") _ _
                (either_IsConsistent (is_moving s.mode) _ _ h (stand-IsConsistent s))
                (either_IsConsistent (cmd.command == "speak") _ _
                  (same_place s _ refl refl refl refl refl h)
                  (either_IsConsistent (cmd.command == "cmd_vel") _ _ (walk-IsConsistent s) h))))))

  abbrev pub Sound : SimRobot F → Type 0
  Sound r = IsConsistent r.state

  strike-Sound :
      (cfg : FailureConfig F) (kind : FailureType) (r : SimRobot F)
      → Sound r
      → Sound (strike num cfg kind r).0
  unfolding strike slow_down
  strike-Sound cfg navigation_timeout r h = free-IsConsistent _ (λ e. cc e) (λ e. cc e)
  strike-Sound cfg offline_mid_route r h = free-IsConsistent _ (λ e. cc e) (λ e. cc e)
  strike-Sound cfg safe_stop_mid_route r h = record {
    at_target = λ e. cc e;
    no_way_left = λ e. cc;
    no_target = λ e. refl;
    no_route = λ e. refl;
  }
  strike-Sound cfg battery_low r h = same_place r.state _ refl refl refl refl refl h
  strike-Sound cfg command_rejected r h = free-IsConsistent _ (λ e. cc e) (λ e. cc e)
  strike-Sound cfg delayed_arrival r h =
      either_IsConsistent (not cfg.applied && num.less num.zero_float cfg.slowdown_factor) _ _
        (same_place r.state _ refl refl refl refl refl h) h
  strike-Sound cfg unknown_failure r h = h

  apply_failure-Sound :
      (o : Option (FailureConfig F)) (r : SimRobot F) → Sound r → Sound (apply_failure num o r).0
  unfolding apply_failure
  apply_failure-Sound none r h = h
  apply_failure-Sound (some cfg) r h = elim (Bool-cases (triggered num cfg r.state)) [
    | inl t ↦ simp t (strike-Sound cfg cfg.kind r h)
    | inr t ↦ simp t h
  ]

  move_along-IsConsistent :
      (s : SimState F) (step : F) → is_moving s.mode ≡ true → IsConsistent (move_along num s step)
  unfolding move_along is_moving
  move_along-IsConsistent s step m =
      free-IsConsistent _ (λ e. let q : true ≡ false = sym m ∙ ap is_moving e in cc)
        (λ e. let q : true ≡ false = sym m ∙ ap is_moving e in cc)

  arrive-IsConsistent : (s : SimState F) → IsConsistent (arrive num s)
  unfolding arrive
  arrive-IsConsistent s = record {
    at_target = λ e. refl;
    no_way_left = λ e. refl;
    no_target = λ e. cc e;
    no_route = λ e. cc e;
  }

  move-IsConsistent : (s : SimState F) → is_moving s.mode ≡ true → IsConsistent (move num s)
  unfolding move
  move-IsConsistent s m =
      either_IsConsistent _ _ _ (move_along-IsConsistent s _ m) (arrive-IsConsistent s)

  after_failure-Sound :
      (now : Time) (q : SimRobot F × Bool) → Sound q.0 → Sound (after_failure num now q)
  unfolding after_failure publish
  after_failure-Sound now (r, true) h = h
  after_failure-Sound now (r, false) h = elim (Bool-cases (is_moving r.state.mode)) [
    | inl m ↦ simp m (move-IsConsistent r.state m)
    | inr m ↦ simp m h
  ]

  happen-Sound : (e : Event num) (r : SimRobot F) → Sound r → Sound (happen num e r)
  unfolding happen tick handle_command set_failure_config reset
  happen-Sound (ticks now) r h =
      after_failure-Sound now _
        (apply_failure-Sound r.failure_config _ (same_place r.state _ refl refl refl refl refl h))
  happen-Sound (gets cmd) r h = elim (Bool-cases (cmd.robot_id == r.id)) [
    | inr e ↦ simp e h
    | inl e ↦ simp e (dispatch-IsConsistent cmd _ (same_place r.state _ refl refl refl refl refl h))
  ]
  happen-Sound (fails_by cfg) r h = h
  happen-Sound (resets now) r h = free-IsConsistent _ (λ e. cc e) (λ e. cc e)

  -- Whatever happens to the robot, its mode stays true to its position and target.
  pub run-Sound : (es : List (Event num)) (r : SimRobot F) → Sound r → Sound (run num es r)
  unfolding run
  run-Sound [] r h = h
  run-Sound (e ∷ es) r h = run-Sound es _ (happen-Sound e r h)

  pub new_state-IsConsistent :
      (id tenant kind : String) (caps : List String) (now : Time)
      → IsConsistent (new_state num id tenant kind caps now)
  unfolding new_state
  new_state-IsConsistent id tenant kind caps now = free-IsConsistent _ (λ e. cc e) (λ e. cc e)
