-- ===== src/Hal/Examples.antt =====
-- The capability test at the robots of capabilities_test.go.
use sai_aurosy.Prelude.{◌≡◌, refl, false, true, none, some, [], ◌∷◌}
use sai_aurosy.Hal.{Robot, has_capability}

abbrev walker : Robot
walker = record {
  id = "r1";
  vendor = "unitree";
  model = "g1";
  adapter_endpoint = "";
  tenant_id = "default";
  edge_id = "";
  location = "";
  capabilities = "walk" ∷ "cmd_vel" ∷ [];
  created_at = 0;
  updated_at = 0;
}

cannot_speak : has_capability (some walker) ("speech" ∷ []) ≡ false
unfolding has_capability
cannot_speak = refl

no_robot : has_capability none ("speech" ∷ []) ≡ true
unfolding has_capability
no_robot = refl
