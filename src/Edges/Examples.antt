-- ===== src/Edges/Examples.antt =====
-- Two edges, after memorystore_test.go.
use sai_aurosy.Prelude.{◌≡◌, refl, List, [], ◌∷◌, ◌++◌, String}
use sai_aurosy.Hal.{Command}
use sai_aurosy.Edges.{new_memory_store, enqueue_command, fetch_and_ack_pending_commands}
use sai_aurosy.Edges.Delivery.{
  Op, enqueue, fetch, step, run, waiting, all_handed_out, all_queued, exactly_once,
}

-- A command for `r1`.
abbrev order : String → Command
order command = record {
  robot_id = "r1";
  command = command;
  payload = "";
  timestamp = 7;
  operator_id = "";
}

abbrev calls : List Op
calls =
    enqueue "i1" "e1" "r1" (order "walk_mode") 1
    ∷ enqueue "i2" "e2" "r2" (order "stand_mode") 2
    ∷ fetch "e1" 3
    ∷ enqueue "i3" "e1" "r1" (order "safe_stop") 4
    ∷ []

handed : all_handed_out "e1" calls new_memory_store ≡ order "walk_mode" ∷ []
unfolding all_handed_out step fetch_and_ack_pending_commands enqueue_command
handed = refl

exactly_once_example :
    all_handed_out "e1" calls new_memory_store ++ waiting "e1" (run calls new_memory_store).cmds
    ≡ waiting "e1" [] ++ all_queued "e1" calls
exactly_once_example = exactly_once "e1" calls new_memory_store
