-- ===== src/Edge/Sync.antt =====
-- pkg/edge/sync.go: one heartbeat. The cloud's HTTP endpoint is a parameter, from a request to a
-- reply; the pending commands are relayed to the local bus.
pub mod Relay
use sai_aurosy.Prelude.{
  ℕ, Bool, true, false, Option, none, some, List, [], ◌∷◌, String, ◌==◌, nat_eq, if◌then◌else◌,
}
use sai_aurosy.Hal.{Time, Command}
use sai_aurosy.Codec.{Codec}
use sai_aurosy.Telemetry.{Link, publish_command}
use sai_aurosy.Edge.Safety.{safety_allow}
use Prim.Native.String.{◌++◌}

-- pkg/edge/config.go, the fields that the heartbeat reads.
pub record Config : Type 0 where
  pub edge_id : String
  pub cloud_url : String
  pub robot_ids : List String
  pub api_key : String

pub record HeartbeatRequest : Type 0 where
  pub edge_id : String
  pub timestamp : Time
  pub robots : List String

-- The POST request: its URL, its `X-API-Key` header if one is set, and its body before encoding.
pub record HttpRequest : Type 0 where
  pub url : String
  pub api_key : Option String
  pub body : HeartbeatRequest

-- `invalid` is a request that could not be built, `unreachable` an error of the client, and
-- a response has a status and its decoded `pending_commands` (`none` where decoding fails).
pub data HttpReply : Type 0 where
  invalid unreachable : HttpReply
  response : ℕ → Option (List Command) → HttpReply

pub data SyncError : Type 0 where
  bad_request transport bad_status bad_body : SyncError

pub heartbeat_request : Config → Time → HttpRequest
heartbeat_request cfg now = record {
  url = cfg.cloud_url ++ "/v1/edges/" ++ cfg.edge_id ++ "/heartbeat";
  api_key = if cfg.api_key == "" then none else some cfg.api_key;
  body = record { edge_id = cfg.edge_id; timestamp = now; robots = cfg.robot_ids };
}

module _ {F : Type 0} (c : Codec F) (link : Link) where
  -- The loop over the pending commands: one that is unsafe, or cannot be published, is passed over.
  relay : List Command → List Command → List Command
  unfolding publish_command
  relay [] sent = sent
  relay (cmd ∷ cmds) sent =
      relay cmds (if safety_allow c cmd then (publish_command link cmd sent).0 else sent)

  after_body : Option (List Command) → List Command → List Command × Option SyncError
  unfolding relay
  after_body none sent = (sent, some bad_body)
  after_body (some pending) sent = (relay pending sent, none)

  after_reply : HttpReply → List Command → List Command × Option SyncError
  unfolding after_body
  after_reply invalid sent = (sent, some bad_request)
  after_reply unreachable sent = (sent, some transport)
  after_reply (response status body) sent =
      if nat_eq status 200 then after_body body sent else (sent, some bad_status)

  -- The commands on the local bus after the heartbeat, and its error.
  pub sync :
      (HttpRequest → HttpReply) → Config → Time → List Command → List Command × Option SyncError
  unfolding after_reply heartbeat_request
  sync cloud cfg now sent = after_reply (cloud (heartbeat_request cfg now)) sent
