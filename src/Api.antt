-- ===== src/Api.antt =====
-- pkg/control-plane/api/server.go: `sendCommand`, the handler of POST /v1/robots/{id}/command. A store that
-- the server may be without is an option. The idempotency keys and the edge queue are those of the
-- in-memory stores, which return no error. `trim` is strings.TrimSpace.
pub mod Keys
pub mod Repeats
pub mod Route
pub mod Delivered
mod Examples
use sai_aurosy.Prelude.{
  Bool, true, false, not, ◌&&◌, Option, none, some, List, [], ◌∷◌, ◌++◌, String, ◌==◌,
  if◌then◌else◌,
}
use sai_aurosy.Dict
use sai_aurosy.Dict.{Dict}
use sai_aurosy.Hal.{Time, Robot, Command}
use sai_aurosy.Codec.{Codec}
use sai_aurosy.Telemetry.{Link, publish_command}
use sai_aurosy.Arbiter.Safety.{safety_allow}
use sai_aurosy.Arbiter.Routing.{AuditEntry, append_entry}
use sai_aurosy.Edges.{MemoryStore, enqueue_command}
use sai_aurosy.Idempotency.{MemoryEntry, reserve}

-- The decoded body. The payload is `none` if it has no fields, and `some none` if it cannot be
-- encoded again.
pub record CommandRequest : Type 0 where
  pub command : String
  pub payload : Option (Option String)
  pub operator_id : String

-- A request: what tenantOrError makes of it (an empty tenant is an administrator's), the robot of its
-- path, its Idempotency-Key header, its body where it can be decoded, its time, and the fresh identifier
-- for a queued command.
pub record Request : Type 0 where
  pub tenant : Option String
  pub robot_id : String
  pub idempotency_key : String
  pub body : Option CommandRequest
  pub now : Time
  pub fresh_id : String

pub data Reply : Type 0 where
  no_tenant not_found accepted bad_request invalid_payload forbidden internal_error : Reply

-- The data of a safe_stop event: the robot and the operator.
pub record SafeStop : Type 0 where
  pub robot_id : String
  pub operator_id : String

pub record Server : Type 0 where
  pub registry : Dict Robot
  pub idempotency : Option (Dict MemoryEntry)
  pub edges : Option MemoryStore
  pub sent : List Command
  pub audits : Option (List AuditEntry)
  pub webhook_events : Option (List SafeStop)
  pub stream_events : Option (List SafeStop)

audit_actor : String → String
audit_actor operator_id = if operator_id == "" then "console" else operator_id

append_event : SafeStop → Option (List SafeStop) → Option (List SafeStop)
append_event e none = none
append_event e (some es) = some (es ++ e ∷ [])

module _ {F : Type 0} (c : Codec F) (link : Link) (trim : String → String) where
  pub command_entry : Robot → CommandRequest → Bool → Request → AuditEntry
  unfolding audit_actor
  command_entry robot body allowed req = record {
    actor = audit_actor body.operator_id;
    action = "command";
    resource = "robot";
    resource_id = req.robot_id;
    timestamp = req.now;
    command = body.command;
    allowed = allowed;
    tenant_id = robot.tenant_id;
  }

  audit_command : Robot → CommandRequest → Bool → Request → Server → Server
  unfolding command_entry append_entry
  audit_command robot body allowed req s = record s {
    audits = append_entry (command_entry robot body allowed req) s.audits;
  }

  announce : CommandRequest → Request → Server → Server
  unfolding audit_actor append_event
  announce body req s =
      let event : SafeStop = record {
        robot_id = req.robot_id;
        operator_id = audit_actor body.operator_id;
      } in
      let stops = body.command == "safe_stop" in
      record s {
        webhook_events = if stops then append_event event s.webhook_events else s.webhook_events;
        stream_events = if stops then append_event event s.stream_events else s.stream_events;
      }

  publish : Command → Server → Server × Bool
  unfolding publish_command
  publish cmd s = let (sent, ok) = publish_command link cmd s.sent in (record s { sent = sent }, ok)

  -- The queue of the robot's edge, or the bus.
  route : Option MemoryStore → Robot → Command → Request → Server → Server × Bool
  unfolding publish enqueue_command
  route none robot cmd req s = publish cmd s
  route (some queue) robot cmd req s =
      if not (robot.edge_id == "")
      then (
        record s {
          edges = some (enqueue_command req.fresh_id robot.edge_id req.robot_id cmd req.now queue);
        },
        true,
      )
      else publish cmd s

  pub command_of : CommandRequest → String → Request → Command
  command_of body payload req = record {
    robot_id = req.robot_id;
    command = body.command;
    payload = payload;
    timestamp = req.now;
    operator_id = body.operator_id;
  }

  after_route : Robot → CommandRequest → Request → Server × Bool → Server × Reply
  unfolding audit_command announce
  after_route robot body req (s, false) = (s, internal_error)
  after_route robot body req (s, true) =
      (announce body req (audit_command robot body true req s), accepted)

  pub check_and_route : Robot → CommandRequest → String → Request → Server → Server × Reply
  unfolding after_route route command_of
  check_and_route robot body payload req s =
      let cmd = command_of body payload req in
      if not (safety_allow c cmd)
      then (audit_command robot body false req s, forbidden)
      else after_route robot body req (route s.edges robot cmd req s)

  with_payload : Option (Option String) → Robot → CommandRequest → Request → Server → Server × Reply
  unfolding check_and_route
  with_payload none robot body req s = check_and_route robot body "" req s
  with_payload (some none) robot body req s = (s, invalid_payload)
  with_payload (some (some bytes)) robot body req s = check_and_route robot body bytes req s

  with_body : Option CommandRequest → Robot → Request → Server → Server × Reply
  unfolding with_payload
  with_body none robot req s = (s, bad_request)
  with_body (some body) robot req s = with_payload body.payload robot body req s

  after_reserve : Robot → Request → Server → Dict MemoryEntry × Bool → Server × Reply
  unfolding with_body
  after_reserve robot req s (keys, false) = (record s { idempotency = some keys }, accepted)
  after_reserve robot req s (keys, true) =
      with_body req.body robot req (record s { idempotency = some keys })

  pub with_keys : Option (Dict MemoryEntry) → Robot → Request → Server → Server × Reply
  unfolding after_reserve reserve
  with_keys none robot req s = with_body req.body robot req s
  with_keys (some keys) robot req s =
      let key = trim req.idempotency_key in
      if not (key == "")
      then after_reserve robot req s (reserve key req.robot_id req.now keys)
      else with_body req.body robot req s

  with_robot : Option Robot → String → Request → Server → Server × Reply
  unfolding with_keys
  with_robot none tenant req s = (s, not_found)
  with_robot (some robot) tenant req s =
      if not (tenant == "") && not (robot.tenant_id == tenant)
      then (s, not_found)
      else with_keys s.idempotency robot req s

  with_tenant : Option String → Request → Server → Server × Reply
  unfolding with_robot
  with_tenant none req s = (s, no_tenant)
  with_tenant (some tenant) req s = with_robot (Dict.get s.registry req.robot_id) tenant req s

  unfoldable pub send_command : Request → Server → Server × Reply
  unfolding with_tenant
  send_command req s = with_tenant req.tenant req s
