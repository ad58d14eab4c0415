-- ===== src/SimRobot/Commands.antt =====
-- internal/simrobot/command_handler.go: what a command does to the state.
use sai_aurosy.Prelude.{
  Bool, true, false, not, ◌||◌, Option, none, some, List, [], ◌∷◌, String, ◌==◌, if◌then◌else◌,
}
use sai_aurosy.Hal.{Command}
use sai_aurosy.SimRobot.{
  SimMode, idle, navigating, arrived, returning, safe_stop, error, stand, walk, NavigatePayload,
  Numbers, Position, SimState, SimRobot, at_base,
}

-- mode == ModeNavigating || mode == ModeReturning
unfoldable pub is_moving : SimMode → Bool
is_moving navigating = true
is_moving returning = true
is_moving idle = false
is_moving arrived = false
is_moving safe_stop = false
is_moving error = false
is_moving stand = false
is_moving walk = false

module _ {F : Type 0} (num : Numbers F) where
  unfoldable pub distance : Position F → Position F → F
  distance a b =
      let dx = num.sub b.x a.x in
      let dy = num.sub b.y a.y in num.sqrt (num.add (num.mul dx dx) (num.mul dy dy))

  unfoldable pub both : Option F → Option F → Option (Position F)
  both none y = none
  both (some x) none = none
  both (some x) (some y) = some (record { x = x; y = y })

  unfoldable pub parse_parts : List String → Option (Position F)
  unfolding both
  parse_parts [] = none
  parse_parts (a ∷ []) = none
  parse_parts (a ∷ b ∷ rest) =
      both (num.parse_float (num.trim_space a)) (num.parse_float (num.trim_space b))

  unfoldable pub parse_coordinates : String → Option (Position F)
  unfolding parse_parts
  parse_coordinates s = parse_parts (num.split_commas (num.trim_space s))

  unfoldable pub go_to : NavigatePayload → Option (Position F) → SimState F → SimState F
  unfolding distance
  go_to p none s = s
  go_to p (some target) s = record s {
    target_position = target;
    route_nodes = p.route;
    route_index = 0;
    mode = navigating;
    distance_to_target = distance s.position target;
  }

  unfoldable pub navigate : NavigatePayload → SimState F → SimState F
  unfolding go_to parse_coordinates
  navigate p s =
      if p.target_coordinates == "" then s else go_to p (parse_coordinates p.target_coordinates) s

  unfoldable pub handle_navigate_to : Command → SimState F → SimState F
  unfolding navigate
  handle_navigate_to cmd s =
      navigate
        (if cmd.payload == ""
          then record { target_coordinates = ""; route = [] }
          else num.decode_navigate cmd.payload)
        s

  unfoldable pub handle_safe_stop : SimState F → SimState F
  handle_safe_stop s = record s {
    mode = safe_stop;
    target_position = at_base num;
    route_nodes = [];
    distance_to_target = num.zero_float;
  }

  unfoldable pub handle_release_control : SimState F → SimState F
  handle_release_control s = record s {
    mode = idle;
    target_position = at_base num;
    distance_to_target = num.zero_float;
  }

  unfoldable pub handle_walk_mode : SimState F → SimState F
  handle_walk_mode s = if is_moving s.mode then s else record s { mode = walk }

  unfoldable pub handle_stand_mode : SimState F → SimState F
  handle_stand_mode s = if is_moving s.mode then s else record s { mode = stand }

  unfoldable pub handle_speak : Command → SimState F → SimState F
  handle_speak cmd s = record s {
    last_spoken_text = if cmd.payload == "" then "" else num.decode_text cmd.payload;
  }

  -- The switch of `HandleCommand`.
  unfoldable pub dispatch : Command → SimState F → SimState F
  unfolding handle_navigate_to handle_safe_stop handle_release_control handle_walk_mode
      handle_stand_mode handle_speak
  dispatch cmd s =
      if cmd.command == "navigate_to"
      then handle_navigate_to cmd s
      else if cmd.command == "safe_stop"
      then handle_safe_stop s
      else if cmd.command == "release_control"
      then handle_release_control s
      else if cmd.command == "walk_mode"
      then handle_walk_mode s
      else if cmd.command == "stand_mode" || cmd.command == "zero_mode"
      then handle_stand_mode s
      else if cmd.command == "speak"
      then handle_speak cmd s
      else if cmd.command == "cmd_vel"
      then record s { mode = walk }
      else s

  unfoldable pub handle_command : Command → SimRobot F → SimRobot F
  unfolding dispatch
  handle_command cmd r = if not (cmd.robot_id == r.id) then r else record r {
    state =
        dispatch cmd (record r.state { last_command = cmd.command; updated_at = cmd.timestamp });
  }
