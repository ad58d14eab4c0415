-- ===== src/Edge/Examples.antt =====
-- The edge at a heartbeat that hands over three commands.
use sai_aurosy.Prelude.{◌≡◌, ◌≢◌, ◌↔◌, Bool, true, not, ◌&&◌, some, [], ◌∷◌, ◌++◌, String, ◌==◌}
use sai_aurosy.Prelude.Lists.{select}
use sai_aurosy.Hal.{Command}
use sai_aurosy.Codec.Decimal.{decimal}
use sai_aurosy.Arbiter.Safety
use sai_aurosy.Arbiter.Permitted.{Permitted}
use sai_aurosy.Edge.Safety as EdgeSafety
use sai_aurosy.Edge.Mirror.{mirror}
use sai_aurosy.Edge.Sync.{Config, HttpRequest, HttpReply, response, heartbeat_request, sync}
use sai_aurosy.Edge.Sync.Relay.{deliverable, pending_of, sync_lem}

-- A command for `r1`.
abbrev order : String → String → Command
order command payload = record {
  robot_id = "r1";
  command = command;
  payload = payload;
  timestamp = 7;
  operator_id = "";
}

abbrev connected : Command → Bool
connected cmd = true

abbrev here_edge : Config
here_edge = record {
  edge_id = "e1";
  cloud_url = "http://cloud";
  robot_ids = "r1" ∷ [];
  api_key = "";
}

abbrev cloud : HttpRequest → HttpReply
cloud request =
    response 200
      (some (order "navigate_to" "shop" ∷ order "cmd_vel" "slow" ∷ order "safe_stop" "" ∷ []))

mirror_example :
    EdgeSafety.safety_allow decimal (order "navigate_to" "shop")
    ≡ Safety.safety_allow decimal (order "navigate_to" "shop")
      && not ("navigate_to" == "navigate_to")
mirror_example = mirror decimal (order "navigate_to" "shop")

sync_lem_example :
    ((sync decimal connected cloud here_edge 5 []).0
      ≡ []
        ++ select
            (deliverable decimal connected)
            (pending_of (cloud (heartbeat_request here_edge 5))))
    × ((cmd : Command)
        → (deliverable decimal connected cmd ≡ true)
          ↔ (Permitted decimal cmd × (cmd.command ≢ "navigate_to") × (true ≡ true)))
sync_lem_example = sync_lem decimal connected cloud here_edge 5 []
