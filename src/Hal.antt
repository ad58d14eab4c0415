-- ===== src/Hal.antt =====
-- pkg/hal: robots, commands and telemetry (types.go), and the capability test (capabilities.go).
-- A `time.Time` is the number of milliseconds since Go's zero time, so `IsZero` is `0`.
-- Telemetry keeps the fields that the control plane reads; a distance is a float of the codec.
mod Examples
pub mod Capability
use sai_aurosy.Prelude.{
  ℕ, Bool, true, false, Option, none, some, List, [], ◌∷◌, String, contains, if◌then◌else◌,
}

abbrev pub Time : Type 0
Time = ℕ

pub record Robot : Type 0 where
  pub id : String
  pub vendor : String
  pub model : String
  pub adapter_endpoint : String
  pub tenant_id : String
  pub edge_id : String
  pub location : String
  pub capabilities : List String
  pub created_at : Time
  pub updated_at : Time

-- An empty payload is Go's nil `json.RawMessage`.
pub record Command : Type 0 where
  pub robot_id : String
  pub command : String
  pub payload : String
  pub timestamp : Time
  pub operator_id : String

-- The loop over `required`; `capSet` is a membership test of the robot's list.
has_all : List String → List String → Bool
has_all caps [] = true
has_all caps (r ∷ rs) = let rest = has_all caps rs in if contains caps r then rest else false

-- A nil robot, and an empty requirement, pass.
unfoldable pub has_capability : Option Robot → List String → Bool
unfolding has_all
has_capability none required = true
has_capability (some robot) [] = true
has_capability (some robot) (r ∷ rs) = has_all robot.capabilities (r ∷ rs)
