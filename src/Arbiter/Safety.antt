-- ===== src/Arbiter/Safety.antt =====
-- pkg/control-plane/arbiter/safety.go.
use sai_aurosy.Prelude.{
  Bool, true, false, not, ◌||◌, Option, none, some, String, ◌==◌, if◌then◌else◌,
}
use sai_aurosy.Prelude.Int.{pos, negsuc}
use sai_aurosy.Hal.{Command}
use sai_aurosy.Codec.{Codec, Velocity, NavPayload}

module _ {F : Type 0} (c : Codec F) where
  abbrev pub linear_vel_min : F
  linear_vel_min = c.tenths (negsuc 14)

  abbrev pub linear_vel_max : F
  linear_vel_max = c.tenths (pos 15)

  abbrev pub angular_vel_min : F
  angular_vel_min = c.tenths (negsuc 19)

  abbrev pub angular_vel_max : F
  angular_vel_max = c.tenths (pos 20)

  -- The three range tests of `validateCmdVelPayload`, on the decoded struct.
  within_limits : Velocity F → Bool
  within_limits p =
      if c.less p.linear_x linear_vel_min || c.less linear_vel_max p.linear_x
      then false
      else if c.less p.linear_y linear_vel_min || c.less linear_vel_max p.linear_y
      then false
      else if c.less p.angular_z angular_vel_min || c.less angular_vel_max p.angular_z
      then false
      else true

  checked_velocity : Option (Velocity F) → Bool
  unfolding within_limits
  checked_velocity none = false
  checked_velocity (some p) = within_limits p

  unfoldable pub validate_cmd_vel_payload : String → Bool
  unfolding checked_velocity
  validate_cmd_vel_payload payload =
      if payload == "" then false else checked_velocity (c.decode_velocity payload)

  checked_target : Option NavPayload → Bool
  checked_target none = false
  checked_target (some p) = not (p.target_coordinates == "")

  unfoldable pub validate_navigate_to_payload : String → Bool
  unfolding checked_target
  validate_navigate_to_payload payload =
      if payload == "" then false else checked_target (c.decode_target payload)

  unfoldable pub safety_allow : Command → Bool
  safety_allow cmd =
      if cmd.command == "safe_stop"
      then true
      else if cmd.command == "release_control"
      then true
      else if cmd.command == "zero_mode"
          || cmd.command == "stand_mode"
          || cmd.command == "walk_mode"
      then true
      else if cmd.command == "cmd_vel"
      then validate_cmd_vel_payload cmd.payload
      else if cmd.command == "navigate_to"
      then validate_navigate_to_payload cmd.payload
      else false
