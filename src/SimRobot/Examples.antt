-- ===== src/SimRobot/Examples.antt =====
-- A robot on a line of natural numbers that is stopped, and one that is sent on its way.
use sai_aurosy.Prelude.{
  ℕ, ◌+◌, ◌-◌, ◌*◌, refl, false, none, some, List, [], ◌∷◌, String, ◌==◌, eq_iff, arith, ltb,
  if◌then◌else◌,
}
use sai_aurosy.Prelude.Int.{pos}
use sai_aurosy.Hal.{Command}
use sai_aurosy.SimRobot.{
  SimMode, offline_mid_route, Numbers, FailureConfig, SimState, SimRobot, new_state,
}
use sai_aurosy.SimRobot.Commands.{is_moving}
use sai_aurosy.SimRobot.Ticks.{Event, ticks, gets, fails_by, run}
use sai_aurosy.SimRobot.Unmoved.{Stands, run-Stands}
use sai_aurosy.SimRobot.Consistent.{Sound, run-Sound, new_state-IsConsistent}

abbrev line : Numbers ℕ
line = record {
  less = ltb;
  add = λ a b. a + b;
  sub = λ a b. a - b;
  mul = λ a b. a * b;
  over = λ a b. a;
  sqrt = λ a. a;
  zero_float = 0;
  half = 1;
  one = 1;
  five = 5;
  hundred = 100;
  nine_nine_nine = 999;
  split_commas = λ s. s ∷ s ∷ [];
  trim_space = λ s. s;
  parse_float = λ s. if s == "bad" then none else some 7;
  decode_navigate = λ s. record { target_coordinates = s; route = [] };
  decode_text = λ s. s;
  format_position = λ x y. "";
}

abbrev fresh : SimState ℕ
fresh = new_state line "sim-001" "default" "simulated" [] 1

abbrev new_robot : SimRobot ℕ
new_robot = record { id = "sim-001"; state = fresh; failure_config = none; published = [] }

abbrev stopped_robot : SimRobot ℕ
stopped_robot = record {
  id = "sim-001";
  state = record fresh { mode = SimMode.safe_stop };
  failure_config = none;
  published = [];
}

abbrev order : String → String → Command
order name payload = record {
  robot_id = "sim-001";
  command = name;
  payload = payload;
  timestamp = 5;
  operator_id = "op";
}

abbrev goes_offline : FailureConfig ℕ
goes_offline = record {
  kind = offline_mid_route;
  after_ticks = pos 1;
  when_distance_lt = 0;
  after_command = "";
  battery_level = 0;
  slowdown_factor = 0;
  duration_ticks = pos 0;
  applied = false;
}

abbrev calm_events : List (Event line)
calm_events =
    ticks 2 ∷ gets (order "walk_mode" "") ∷ fails_by (some goes_offline) ∷ ticks 3 ∷ ticks 4 ∷ []

run-Stands_example : Stands line (record { x = 0; y = 0 }) (run line calm_events stopped_robot)
unfolding new_state is_moving
run-Stands_example =
    run-Stands line (record { x = 0; y = 0 }) calm_events stopped_robot
      (tt, ((λ e. ground (arith, eq_iff "walk_mode" "navigate_to")), (tt, (tt, (tt, tt)))))
      (refl, refl)

run-Sound_example :
    Sound line (run line (gets (order "navigate_to" "7,7") ∷ ticks 2 ∷ ticks 3 ∷ []) new_robot)
run-Sound_example =
    run-Sound line (gets (order "navigate_to" "7,7") ∷ ticks 2 ∷ ticks 3 ∷ []) new_robot
      (new_state-IsConsistent line "sim-001" "default" "simulated" [] 1)
