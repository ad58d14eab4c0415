-- ===== src/Robot/Manager/Examples.antt =====
-- Tests of the state machine and the manager, and theorems applied to their values.
use sai_aurosy.Prelude.{◌≡◌, refl, false, List, [], ◌∷◌, String, ◌==◌, if◌then◌else◌}
use sai_aurosy.Dict
use sai_aurosy.Robot.StateMachine.{idle, navigating, arrived, error, can_transition}
use sai_aurosy.Robot.StateMachine.Paths.{Reach, here, move}
use sai_aurosy.Robot.Manager.{Details, transition}
use sai_aurosy.Robot.Manager.Legal.{state_of, transition_lem, Call, change, perform_all}

abbrev trip : Details
trip = record {
  task_id = "t1";
  target_store = "Shoes";
  dest_node = "n4";
  target_coords = "1,2,0";
  status_msg = "navigating";
}

abbrev visit : List Call
visit =
    change "r1" navigating trip 5 ∷ change "r1" arrived trip 9 ∷ change "r1" navigating trip 12 ∷ []

-- The third change is refused: an arrived robot has to go through the base or idle.
visit_ends : state_of (perform_all visit []) "r1" ≡ arrived
unfolding state_of perform_all transition can_transition Dict.get Dict.put
visit_ends = refl

to_shop : Reach idle arrived
unfolding can_transition
to_shop = move {t = navigating} (move here refl) refl

from_error : Reach error navigating
unfolding can_transition
from_error = move {t = idle} (move here refl) refl

transition_lem_example :
    ((transition "r1" arrived trip 5 []).1 ≡ can_transition (state_of [] "r1") arrived)
    × (state_of (transition "r1" arrived trip 5 []).0 "r1"
        ≡ (if can_transition (state_of [] "r1") arrived then arrived else state_of [] "r1"))
    × ((q : String)
        → ("r1" == q) ≡ false
        → Dict.get (transition "r1" arrived trip 5 []).0 q ≡ Dict.get [] q)
transition_lem_example = transition_lem "r1" arrived trip 5 []
