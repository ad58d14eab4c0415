-- ===== src/Coordinator/Examples.antt =====
-- Tests of the coordinator, after coordinator_test.go, and theorems applied to their stores.
use sai_aurosy.Prelude.{◌≡◌, refl, ◌⊎◌, false, List, [], ◌∷◌, Memᴰ, String, eq_iff, arith}
use sai_aurosy.Dict
use sai_aurosy.Coordinator.{Store, acquire_zone, release_zone}
use sai_aurosy.Coordinator.Locks.{IsValid, holder}
use sai_aurosy.Coordinator.Exclusion.{
  Op, acquire, release, release_all, run, own_all, run_refines, exclusive,
}

abbrev held : Store
held = record {
  zones = [];
  locks = ("X", record { zone_id = "X"; robot_id = "r1"; acquired = 5 }) ∷ [];
}

held-IsValid : IsValid held
unfolding Dict.get
held-IsValid = record { one_lock = (refl, tt); named = λ z lock g. ground (arith, eq_iff "X" z) }

occupied_zone : (acquire_zone "r2" "X" 9 held).1 ≡ false
unfolding acquire_zone Dict.get
occupied_zone = refl

wrong_robot : (release_zone "r2" "X" held).1 ≡ false
unfolding release_zone Dict.get
wrong_robot = refl

abbrev handing_over : List Op
handing_over = release "r1" "X" ∷ acquire "r2" "X" 9 ∷ []

run_refines_example :
    IsValid (run handing_over held)
    × ((y : String) → holder (run handing_over held) y ≡ own_all handing_over (holder held) y)
run_refines_example = run_refines handing_over held held-IsValid

exclusive_example : Memᴰ (release "r1" "X") handing_over ⊎ Memᴰ (release_all "r1") handing_over
unfolding run acquire_zone release_zone holder Dict.get Dict.put Dict.remove
exclusive_example =
    exclusive handing_over held "X" "r1" "r2" held-IsValid refl refl
      (ground (arith, eq_iff "r1" "r2"))
