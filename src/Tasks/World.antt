-- ===== src/Tasks/World.antt =====
-- What the task runner reads and changes (runner.go): the task store, the zone coordinator, the
-- commands on the bus and the calls of the runner's callbacks, in their order. A callback that is
-- not set drops its calls. The actions of the runner on this state are here; its loops are in Steps.
use sai_aurosy.Prelude.{List, [], ◌∷◌, ◌++◌, String, if◌then◌else◌}
use sai_aurosy.Hal.{Time, Command}
use sai_aurosy.Codec.{Codec}
use sai_aurosy.Telemetry.{Link, publish_command}
use sai_aurosy.Arbiter.Safety.{safety_allow}
use sai_aurosy.Coordinator as Zones
use sai_aurosy.Tasks.Types.{Task, Status, cancelled}
use sai_aurosy.Tasks.Store as TaskStore

-- `delegated` is the start of the goroutine of the mall assistant.
pub data Event : Type 0 where
  started : String → String → String → String → Event
  ended : String → String → Status → Event
  zone_acquired : String → String → String → Event
  zone_released : String → String → String → Event
  delegated : String → String → String → String → Event

pub record World : Type 0 where
  pub tasks : TaskStore.Store
  pub zones : Zones.Store
  pub sent : List Command
  pub events : List Event

unfoldable pub emit : Event → World → World
emit e w = record w { events = w.events ++ e ∷ [] }

-- The two calls by which the runner ends a task: the store's update and `emitTaskCompleted`.
unfoldable pub end_task : Task → Status → Time → World → World
unfolding emit
end_task task st now w =
    emit (ended task.id task.robot_id st)
      (record w { tasks = TaskStore.update_status_and_completed_at task.id st now now w.tasks })

module _ {F : Type 0} (c : Codec F) (link : Link) where
  unfoldable pub safe_stop_command : Task → Time → Command
  safe_stop_command task now = record {
    robot_id = task.robot_id;
    command = "safe_stop";
    payload = "";
    timestamp = now;
    operator_id = task.operator_id;
  }

  unfoldable pub send_safe_stop : Task → Time → World → World
  unfolding safe_stop_command publish_command
  send_safe_stop task now w =
      let cmd = safe_stop_command task now in
      if safety_allow c cmd then record w { sent = (publish_command link cmd w.sent).0 } else w

  -- The four places where the runner sees that the context is done or the task is cancelled.
  unfoldable pub stop_task : Task → Time → World → World
  unfolding end_task send_safe_stop
  stop_task task now w = send_safe_stop task now (end_task task cancelled now w)
