-- ===== src/Api/Examples.antt =====
-- The handler at a repeated safe_stop and at a command for an edge.
use sai_aurosy.Prelude.{arith, ◌≡◌, refl, Bool, true, false, none, some, [], ◌∷◌, String}
use sai_aurosy.Dict
use sai_aurosy.Hal.{Robot, Command}
use sai_aurosy.Codec.Decimal.{decimal}
use sai_aurosy.Arbiter.Safety.{safety_allow}
use sai_aurosy.Edges.{new_memory_store}
use sai_aurosy.Idempotency.{reserve}
use sai_aurosy.Api.{Request, Server, internal_error, send_command}
use sai_aurosy.Api.Repeats.{run, request, tick, no_second_command}
use sai_aurosy.Api.Delivered.{Delivered, accepted-Delivered}

-- `r1` is connected to the bus and `r2` is behind an edge.
abbrev robot : String → String → Robot
robot id edge = record {
  id = id;
  vendor = "unitree";
  model = "g1";
  adapter_endpoint = "";
  tenant_id = "shop";
  edge_id = edge;
  location = "";
  capabilities = [];
  created_at = 0;
  updated_at = 0;
}

abbrev server : Server
server = record {
  registry = ("r1", robot "r1" "") ∷ ("r2", robot "r2" "e1") ∷ [];
  idempotency = some [];
  edges = some new_memory_store;
  sent = [];
  audits = some [];
  webhook_events = some [];
  stream_events = some [];
}

abbrev stop : String → Request
stop robot_id = record {
  tenant = some "shop";
  robot_id = robot_id;
  idempotency_key = "k1";
  body = some (record { command = "safe_stop"; payload = none; operator_id = "op" });
  now = 5;
  fresh_id = "i1";
}

abbrev connected : Command → Bool
connected cmd = true

abbrev disconnected : Command → Bool
disconnected cmd = false

abbrev untrimmed : String → String
untrimmed s = s

-- The publication fails and the caller is told so.
stop_fails : (send_command decimal disconnected untrimmed (stop "r1") server).1 ≡ internal_error
unfolding send_command reserve safety_allow Dict.get Dict.put
stop_fails = refl

-- An hour later the keys are cleaned up, and the repetition is dropped all the same.
no_second_command_example :
    let s' =
      run decimal disconnected untrimmed
        (request (stop "r2") ∷ tick 3600000 ∷ [])
        (send_command decimal disconnected untrimmed (stop "r1") server).0 in
    (send_command decimal disconnected untrimmed (stop "r1") s').0 ≡ s'
unfolding send_command reserve safety_allow Dict.get Dict.put
no_second_command_example =
    no_second_command decimal disconnected untrimmed (stop "r1") (stop "r1")
      (request (stop "r2") ∷ tick 3600000 ∷ []) server [] refl refl refl (λ q. cc) (λ q. cc)
      (omega arith, tt)

accepted-Delivered_example :
    Delivered decimal connected untrimmed
      (stop "r2")
      server
      (send_command decimal connected untrimmed (stop "r2") server).0
unfolding send_command reserve safety_allow Dict.get Dict.put
accepted-Delivered_example =
    accepted-Delivered decimal connected untrimmed (stop "r2") server refl refl
