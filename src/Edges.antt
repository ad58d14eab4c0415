-- ===== src/Edges.antt =====
-- pkg/control-plane/edges/memorystore.go: the edge nodes and the commands that wait for them. Every
-- method runs under the mutex and returns no error. The identifier of a pending command (a fresh
-- UUID) and the times that a method reads are arguments.
pub mod Delivery
mod Examples
use sai_aurosy.Prelude.{
  Bool, true, false, not, ◌&&◌, Option, none, some, List, [], ◌∷◌, ◌++◌, String, ◌==◌, is_some,
  nat_eq, if◌then◌else◌,
}
use sai_aurosy.Dict
use sai_aurosy.Dict.{Dict}
use sai_aurosy.Hal.{Time, Command}

pub record Edge : Type 0 where
  pub id : String
  pub last_heartbeat : Time
  pub config_json : String
  pub created_at : Time
  pub updated_at : Time

pub record PendingCommand : Type 0 where
  pub id : String
  pub edge_id : String
  pub robot_id : String
  pub cmd : Command
  pub created_at : Time
  pub acked_at : Option Time

pub record MemoryStore : Type 0 where
  pub edges : Dict Edge
  pub cmds : List PendingCommand

abbrev pub new_memory_store : MemoryStore
new_memory_store = record { edges = []; cmds = [] }

upsert_edge : Edge → Time → MemoryStore → MemoryStore
upsert_edge e now s = record s {
  edges = Dict.put s.edges e.id (record e {
    updated_at = now;
    created_at = if nat_eq e.created_at 0 then now else e.created_at;
  });
}

get_edge : String → MemoryStore → Option Edge
get_edge id s = Dict.get s.edges id

list_edges : MemoryStore → List Edge
list_edges s = Dict.values s.edges

unfoldable pub enqueue_command :
    String → String → String → Command → Time → MemoryStore → MemoryStore
enqueue_command id edge_id robot_id cmd now s = record s {
  cmds =
      s.cmds
      ++ record {
        id = id;
        edge_id = edge_id;
        robot_id = robot_id;
        cmd = cmd;
        created_at = now;
        acked_at = none;
      }
        ∷ [];
}

-- The test of the loop.
abbrev pub awaits : String → PendingCommand → Bool
awaits edge_id p = p.edge_id == edge_id && not (is_some p.acked_at)

-- The loop: the commands afterwards, and those that are handed out.
unfoldable pub ack_all : String → Time → List PendingCommand → List PendingCommand × List Command
ack_all edge_id now [] = ([], [])
ack_all edge_id now (p ∷ ps) =
    let (ps', out) = ack_all edge_id now ps in
    if awaits edge_id p
    then (record p { acked_at = some now } ∷ ps', p.cmd ∷ out)
    else (p ∷ ps', out)

unfoldable pub fetch_and_ack_pending_commands :
    String → Time → MemoryStore → MemoryStore × List Command
unfolding ack_all
fetch_and_ack_pending_commands edge_id now s =
    let (cmds, out) = ack_all edge_id now s.cmds in (record s { cmds = cmds }, out)
