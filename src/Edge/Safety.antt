-- ===== src/Edge/Safety.antt =====
-- pkg/edge/safety.go, the edge's own copy of the safety test. Its limits are the numbers of
-- pkg/control-plane/arbiter/safety.go.
use sai_aurosy.Prelude.{Bool, true, false, ◌||◌, Option, none, some, String, ◌==◌, if◌then◌else◌}
use sai_aurosy.Prelude.Int.{pos, negsuc}
use sai_aurosy.Hal.{Command}
use sai_aurosy.Codec.{Codec, Velocity}

module _ {F : Type 0} (c : Codec F) where
  within_limits : Velocity F → Bool
  within_limits p =
      if c.less p.linear_x (c.tenths (negsuc 14)) || c.less (c.tenths (pos 15)) p.linear_x
      then false
      else if c.less p.linear_y (c.tenths (negsuc 14)) || c.less (c.tenths (pos 15)) p.linear_y
      then false
      else if c.less p.angular_z (c.tenths (negsuc 19)) || c.less (c.tenths (pos 20)) p.angular_z
      then false
      else true

  checked_velocity : Option (Velocity F) → Bool
  unfolding within_limits
  checked_velocity none = false
  checked_velocity (some p) = within_limits p

  unfoldable pub validate_cmd_vel_payload : String → Bool
  unfolding checked_velocity
  validate_cmd_vel_payload payload =
      if payload == "" then false else checked_velocity (c.decode_velocity payload)

  unfoldable pub safety_allow : Command → Bool
  safety_allow cmd =
      if cmd.command == "safe_stop"
      then true
      else if cmd.command == "release_control"
      then true
      else if cmd.command == "zero_mode"
          || cmd.command == "stand_mode"
          || cmd.command == "walk_mode"
      then true
      else if cmd.command == "cmd_vel"
      then validate_cmd_vel_payload cmd.payload
      else false
