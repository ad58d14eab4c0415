-- ===== src/Arbiter/Examples.antt =====
-- The arbiter at concrete commands.
use sai_aurosy.Prelude.{
  ◌≡◌, refl, ◌↔◌, Bool, false, true, some, List, [], ◌∷◌, ◌++◌, String, is_some, arith,
}
use sai_aurosy.Prelude.Lists.{select}
use sai_aurosy.Dict
use sai_aurosy.Hal.{Time, Robot, Command}
use sai_aurosy.Codec.Decimal.{decimal}
use sai_aurosy.Arbiter.Safety.{safety_allow, validate_cmd_vel_payload}
use sai_aurosy.Arbiter.Permitted.{Permitted, safety_allow_iff}
use sai_aurosy.Arbiter.Routing.{Arbiter, AuditEntry, handle_all}
use sai_aurosy.Arbiter.Routing.Trace.{
  IsSound, allowed_count, handle_all_lem, routes, commands, decisions,
}

abbrev walker : Robot
walker = record {
  id = "r1";
  vendor = "unitree";
  model = "g1";
  adapter_endpoint = "";
  tenant_id = "default";
  edge_id = "";
  location = "";
  capabilities = [];
  created_at = 0;
  updated_at = 0;
}

-- A command for `r1`.
abbrev order : String → String → Command
order command payload = record {
  robot_id = "r1";
  command = command;
  payload = payload;
  timestamp = 7;
  operator_id = "";
}

abbrev connected : Command → Bool
connected cmd = true

abbrev ready : Arbiter
ready = record { registry = ("r1", walker) ∷ []; sent = []; audits = some [] }

abbrev orders : List (Command × Time)
orders = (order "cmd_vel" "slow", 8) ∷ (order "cmd_vel" "fast", 9) ∷ (order "safe_stop" "", 10) ∷ []

safety_allow_iff_example :
    (safety_allow decimal (order "cmd_vel" "slow") ≡ true)
    ↔ Permitted decimal (order "cmd_vel" "slow")
safety_allow_iff_example = safety_allow_iff decimal (order "cmd_vel" "slow")

slow_passes : safety_allow decimal (order "cmd_vel" "slow") ≡ true
unfolding safety_allow validate_cmd_vel_payload
slow_passes = refl

fast_is_refused : safety_allow decimal (order "cmd_vel" "fast") ≡ false
unfolding safety_allow validate_cmd_vel_payload
fast_is_refused = refl

ready-IsSound : IsSound decimal connected ready
unfolding allowed_count
ready-IsSound = record { routed = tt; recorded = λ es e. ground (arith, e) }

handle_all_lem_example :
    ((handle_all decimal connected orders ready).sent
      ≡ [] ++ select (routes decimal connected ready.registry) (commands decimal connected orders))
    × ((es : List AuditEntry)
        → some [] ≡ some es
        → (handle_all decimal connected orders ready).audits
          ≡ some (es ++ decisions decimal connected ready.registry orders))
    × ((cmd : Command)
        → (routes decimal connected ready.registry cmd ≡ true) ↔ (
            (is_some (Dict.get ready.registry cmd.robot_id) ≡ true)
            × Permitted decimal cmd
            × (true ≡ true)))
handle_all_lem_example = handle_all_lem decimal connected orders ready
