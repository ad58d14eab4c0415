-- ===== src/Arbiter/Routing.antt =====
-- pkg/control-plane/arbiter/arbiter.go: what the arbiter does with each command that it receives.
-- The logs of `slog` are left out. The audit store is optional, as in the source; the audit entry
-- keeps the two values that go into its JSON `Details`.
pub mod Trace
use sai_aurosy.Prelude.{
  Bool, true, false, Option, none, some, List, [], ◌∷◌, ◌++◌, String, ◌==◌, is_some, not,
  if◌then◌else◌,
}
use sai_aurosy.Dict
use sai_aurosy.Dict.{Dict}
use sai_aurosy.Hal.{Time, Robot, Command}
use sai_aurosy.Codec.{Codec}
use sai_aurosy.Telemetry.{Link, publish_command}
use sai_aurosy.Arbiter.Safety.{safety_allow}

pub record AuditEntry : Type 0 where
  pub actor : String
  pub action : String
  pub resource : String
  pub resource_id : String
  pub timestamp : Time
  pub command : String
  pub allowed : Bool
  pub tenant_id : String

pub record Arbiter : Type 0 where
  pub registry : Dict Robot
  pub sent : List Command
  pub audits : Option (List AuditEntry)

null_if_empty : String → String
null_if_empty s = if s == "" then "system" else s

pub entry_of : Command → Bool → Time → AuditEntry
unfolding null_if_empty
entry_of cmd allowed now = record {
  actor = null_if_empty cmd.operator_id;
  action = "command";
  resource = "robot";
  resource_id = cmd.robot_id;
  timestamp = now;
  command = cmd.command;
  allowed = allowed;
  tenant_id = "";
}

unfoldable pub append_entry : AuditEntry → Option (List AuditEntry) → Option (List AuditEntry)
append_entry e none = none
append_entry e (some entries) = some (entries ++ e ∷ [])

audit : Command → Bool → Time → Arbiter → Arbiter
unfolding append_entry entry_of
audit cmd allowed now a = record a { audits = append_entry (entry_of cmd allowed now) a.audits }

module _ {F : Type 0} (c : Codec F) (link : Link) where
  after_publish : Command → Time → Arbiter → List Command × Bool → Arbiter
  unfolding audit
  after_publish cmd now a (sent, true) = audit cmd true now (record a { sent = sent })
  after_publish cmd now a (sent, false) = audit cmd false now (record a { sent = sent })

  pub handle_command : Command → Time → Arbiter → Arbiter
  unfolding after_publish publish_command
  handle_command cmd now a =
      if not (is_some (Dict.get a.registry cmd.robot_id))
      then audit cmd false now a
      else if not (safety_allow c cmd)
      then audit cmd false now a
      else after_publish cmd now a (publish_command link cmd a.sent)

  -- The commands of a subscription, each with the time of its handling.
  pub handle_all : List (Command × Time) → Arbiter → Arbiter
  handle_all [] a = a
  handle_all ((cmd, now) ∷ cmds) a = handle_all cmds (handle_command cmd now a)
