-- ===== src/SimRobot/Ticks.antt =====
-- internal/simrobot: one step of the simulation (simulator.go), with the failures that are injected
-- (failures.go) and the telemetry that it sends (telemetry.go). The time of the step is an argument.
use sai_aurosy.Prelude.{
  zero, suc, Bool, true, false, not, ◌&&◌, ◌||◌, Option, none, some, List, [], ◌∷◌, ◌++◌, String,
  ◌==◌, ltb, leb, if◌then◌else◌,
}
use sai_aurosy.Prelude.Int.{ℤ, pos, negsuc, is_positive, to_ℕ}
use sai_aurosy.Hal.{Time, Command}
use sai_aurosy.SimRobot.{
  SimMode, navigating, arrived, returning, safe_stop, error, stand, walk, FailureType,
  navigation_timeout, offline_mid_route, safe_stop_mid_route, battery_low, command_rejected,
  delayed_arrival, unknown_failure, Numbers, FailureConfig, Position, SimState, Telemetry, SimRobot,
  at_base, reset, set_failure_config,
}
use sai_aurosy.SimRobot.Commands.{is_moving, distance, handle_command}

module _ {F : Type 0} (num : Numbers F) where
  unfoldable pub task_name : SimMode → String
  task_name stand = "stand"
  task_name walk = "walk"
  task_name navigating = "walk"
  task_name returning = "walk"
  task_name _ = "idle"

  unfoldable pub shows_target : SimMode → Bool
  shows_target navigating = true
  shows_target returning = true
  shows_target arrived = true
  shows_target _ = false

  unfoldable pub is_error : SimMode → Bool
  is_error error = true
  is_error _ = false

  unfoldable pub build_telemetry : Time → SimState F → Telemetry F
  unfolding task_name shows_target is_error
  build_telemetry now s = record {
    robot_id = s.robot_id;
    timestamp = now;
    online = s.online;
    actuator_status =
        if not s.online then "disabled" else if is_error s.mode then "error" else "enabled";
    mock_mode = true;
    current_task = task_name s.mode;
    position = num.format_position s.position.x s.position.y;
    target_position =
        if shows_target s.mode
        then num.format_position s.target_position.x s.target_position.y
        else "";
    distance_to_target = s.distance_to_target;
  }

  -- The three trigger conditions.
  unfoldable pub triggered : FailureConfig F → SimState F → Bool
  triggered cfg s =
      is_positive cfg.after_ticks && leb (to_ℕ cfg.after_ticks) s.tick_count
      || (num.less num.zero_float cfg.when_distance_lt
          && num.less num.zero_float s.distance_to_target
          && num.less s.distance_to_target cfg.when_distance_lt)
      || (not (cfg.after_command == "")
          && s.last_command == cfg.after_command
          && ltb 0 s.tick_count)

  unfoldable pub slow_down : FailureConfig F → SimState F → SimState F
  slow_down cfg s =
      if not cfg.applied && num.less num.zero_float cfg.slowdown_factor
      then record s { speed = num.mul s.speed cfg.slowdown_factor }
      else s

  unfoldable pub mark_applied : FailureConfig F → FailureConfig F
  mark_applied cfg =
      if not cfg.applied && num.less num.zero_float cfg.slowdown_factor
      then record cfg { applied = true }
      else cfg

  -- `DurationTicks--`; the configuration goes when no ticks are left.
  unfoldable pub count_down : FailureConfig F → ℤ → Option (FailureConfig F)
  count_down cfg (pos zero) = none
  count_down cfg (pos (suc zero)) = none
  count_down cfg (pos (suc (suc n))) = some (record cfg { duration_ticks = pos (suc n) })
  count_down cfg (negsuc n) = none

  -- The switch of `applyFailure`: the new robot, and whether the movement is skipped.
  unfoldable pub strike : FailureConfig F → FailureType → SimRobot F → SimRobot F × Bool
  unfolding slow_down mark_applied count_down
  strike cfg navigation_timeout r = (
    record r {
      state = record r.state { mode = error; distance_to_target = num.nine_nine_nine };
      failure_config = none;
    },
    true,
  )
  strike cfg offline_mid_route r = (
    record r { state = record r.state { online = false; mode = error }; failure_config = none },
    true,
  )
  strike cfg safe_stop_mid_route r = (
    record r {
      state = record r.state {
        mode = safe_stop;
        target_position = at_base num;
        route_nodes = [];
        distance_to_target = num.zero_float;
      };
      failure_config = none;
    },
    true,
  )
  strike cfg battery_low r = (
    record r {
      state = record r.state {
        battery_level =
            if num.less num.zero_float cfg.battery_level then cfg.battery_level else num.five;
      };
      failure_config = none;
    },
    true,
  )
  strike cfg command_rejected r =
      (record r { state = record r.state { mode = error }; failure_config = none }, true)
  strike cfg delayed_arrival r = (
    record r {
      state = slow_down cfg r.state;
      failure_config = count_down (mark_applied cfg) cfg.duration_ticks;
    },
    false,
  )
  strike cfg unknown_failure r = (record r { failure_config = none }, true)

  unfoldable pub apply_failure : Option (FailureConfig F) → SimRobot F → SimRobot F × Bool
  unfolding triggered strike
  apply_failure none r = (r, false)
  apply_failure (some cfg) r = if triggered cfg r.state then strike cfg cfg.kind r else (r, false)

  unfoldable pub step_length : SimState F → F → F
  step_length s dist =
      let speed = if num.less num.zero_float s.speed then s.speed else num.one in
      let step = num.mul speed num.half in if num.less dist step then dist else step

  unfoldable pub move_along : SimState F → F → SimState F
  unfolding distance
  move_along s step =
      let dx = num.sub s.target_position.x s.position.x in
      let dy = num.sub s.target_position.y s.position.y in
      let norm = num.sqrt (num.add (num.mul dx dx) (num.mul dy dy)) in
      let moved : Position F =
        if num.less num.zero_float norm
        then record {
          x = num.add s.position.x (num.mul (num.over dx norm) step);
          y = num.add s.position.y (num.mul (num.over dy norm) step);
        }
        else s.position in
      record s { position = moved; distance_to_target = distance num moved s.target_position }

  unfoldable pub arrive : SimState F → SimState F
  arrive s = record s {
    position = s.target_position;
    distance_to_target = num.zero_float;
    mode = arrived;
  }

  unfoldable pub move : SimState F → SimState F
  unfolding step_length move_along arrive distance
  move s =
      let dist = distance num s.position s.target_position in
      if num.less num.half dist then move_along s (step_length s dist) else arrive s

  unfoldable pub publish : Time → SimRobot F → SimRobot F
  unfolding build_telemetry
  publish now r = record r { published = r.published ++ build_telemetry now r.state ∷ [] }

  unfoldable pub after_failure : Time → SimRobot F × Bool → SimRobot F
  unfolding publish move
  after_failure now (r, true) = publish now r
  after_failure now (r, false) =
      if not (is_moving r.state.mode)
      then publish now r
      else publish now (record r { state = move r.state })

  unfoldable pub tick : Time → SimRobot F → SimRobot F
  unfolding apply_failure after_failure
  tick now r =
      let ticked : SimRobot F = record r {
        state = record r.state { tick_count = suc r.state.tick_count; updated_at = now };
      } in
      after_failure now (apply_failure r.failure_config ticked)

  -- What happens to a robot, one at a time.
  pub data Event : Type 0 where
    ticks : Time → Event
    gets : Command → Event
    fails_by : Option (FailureConfig F) → Event
    resets : Time → Event

  unfoldable pub happen : Event → SimRobot F → SimRobot F
  unfolding tick handle_command set_failure_config reset
  happen (ticks now) r = tick now r
  happen (gets cmd) r = handle_command num cmd r
  happen (fails_by cfg) r = set_failure_config num cfg r
  happen (resets now) r = reset num now r

  unfoldable pub run : List Event → SimRobot F → SimRobot F
  unfolding happen
  run [] r = r
  run (e ∷ es) r = run es (happen e r)
