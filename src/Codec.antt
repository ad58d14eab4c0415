-- ===== src/Codec.antt =====
-- What the program takes from Go's `encoding/json` and `float64`: the model's functions have these
-- as a parameter. A decoder that returns `none` is an error that the code checks; where the code
-- drops the error (`_ = json.Unmarshal(...)`), the decoder returns the struct as it was left.
pub mod Decimal
use sai_aurosy.Prelude.{Bool, Option, String}
use sai_aurosy.Prelude.Int.{ℤ}

-- The struct of `validateCmdVelPayload`.
pub record Velocity (F : Type 0) : Type 0 where
  pub linear_x : F
  pub linear_y : F
  pub angular_z : F

-- The payload of navigation commands and tasks.
pub record NavPayload : Type 0 where
  pub target_coordinates : String
  pub store_name : String
  pub target_store : String
  pub destination_node_id : String

-- The struct `taskPayload` of the task runner.
pub record TaskPayload (F : Type 0) : Type 0 where
  pub duration_sec : ℤ
  pub velocity : Velocity F
  pub zone_id : String
  pub target_coordinates : String
  pub store_name : String

pub record Codec (F : Type 0) : Type 0 where
  -- a < b
  pub less : F → F → Bool
  -- the literal with this many tenths: -1.5 is `tenths (negsuc 14)`
  pub tenths : ℤ → F
  pub decode_velocity : String → Option (Velocity F)
  pub decode_target : String → Option NavPayload
  pub decode_nav : String → NavPayload
  pub decode_task : String → TaskPayload F
  pub encode_velocity : Velocity F → String
  pub encode_nav : NavPayload → String
