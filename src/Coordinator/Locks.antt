-- ===== src/Coordinator/Locks.antt =====
-- The operations on the abstract view of the store: which robot, if any, holds a zone.
use sai_aurosy.Prelude.{
  ◌≡◌, refl, inl, inr, Bool, false, Option, none, some, String, ◌==◌, eq_iff, arith, if◌then◌else◌,
  is_some, not, Bool-cases,
}
use sai_aurosy.Dict
use sai_aurosy.Dict.Laws.{
  get-put, get-remove, get-delete_where, put-IsUnique, remove-IsUnique, delete_where-IsUnique,
}
use sai_aurosy.Hal.{Time}
use sai_aurosy.Coordinator.{
  Zone, ZoneLock, Store, held_by, acquire_zone, release_zone, release_all_for_robot, register_zone,
}

holder_of : Option ZoneLock → Option String
holder_of none = none
holder_of (some lock) = some lock.robot_id

-- The robot that holds a zone.
unfoldable pub holder : Store → String → Option String
unfolding holder_of
holder s zone_id = holder_of (Dict.get s.locks zone_id)

unfoldable pub holds : String → Option String → Bool
holds r none = false
holds r (some q) = q == r

-- One lock for each zone, and each lock names the zone under which it is stored.
pub record IsValid (s : Store) : Type 0 where
  pub one_lock : Dict.IsUnique s.locks
  pub named : (z : String) (lock : ZoneLock) → Dict.get s.locks z ≡ some lock → lock.zone_id ≡ z

module _ (s : Store) (v : IsValid s) where
  pub register_zone-IsValid : (z : Zone) → IsValid (register_zone z s)
  unfolding register_zone
  register_zone-IsValid z = record { one_lock = v.one_lock; named = v.named }

  pub holder-register : (z : Zone) (y : String) → holder (register_zone z s) y ≡ holder s y
  unfolding register_zone holder
  holder-register z y = refl

  pub acquire_zone-IsValid : (r z : String) (now : Time) → IsValid (acquire_zone r z now s).0
  unfolding acquire_zone
  acquire_zone-IsValid r z now = elim (Bool-cases (is_some (Dict.get s.locks z))) [
    | inl e ↦ rw e v
    | inr e ↦ rw e (record {
      one_lock = put-IsUnique s.locks z _ v.one_lock;
      named = λ y lock g. ground (
        arith,
        get-put s.locks z y (record { zone_id = z; robot_id = r; acquired = now }),
        v.named y lock,
        eq_iff z y,
      );
    })
  ]

  pub release_zone-IsValid : (r z : String) → IsValid (release_zone r z s).0
  unfolding release_zone
  release_zone-IsValid r z = elim (Bool-cases (held_by r (Dict.get s.locks z))) [
    | inl e ↦ rw e (record {
      one_lock = remove-IsUnique s.locks z v.one_lock;
      named = λ y lock g. ground (arith, get-remove s.locks z y, v.named y lock);
    })
    | inr e ↦ rw e v
  ]

  pub release_all_for_robot-IsValid : (r : String) → IsValid (release_all_for_robot r s)
  unfolding release_all_for_robot
  release_all_for_robot-IsValid r = record {
    one_lock = delete_where-IsUnique s.locks (λ lock. lock.robot_id == r) v.one_lock;
    named = λ y lock g.
        ground (
          arith,
          get-delete_where s.locks (λ lock. lock.robot_id == r) y v.one_lock,
          v.named y lock,
        );
  }

  pub holder-acquire :
      (r z y : String) (now : Time)
      → holder (acquire_zone r z now s).0 y
        ≡ (if z == y then (if is_some (holder s z) then holder s z else some r) else holder s y)
  unfolding acquire_zone holder
  holder-acquire r z y now = ground (
    arith,
    get-put s.locks z y (record { zone_id = z; robot_id = r; acquired = now }),
    eq_iff z y,
  )

  pub acquired_iff_free :
      (r z : String) (now : Time) → (acquire_zone r z now s).1 ≡ not (is_some (holder s z))
  unfolding acquire_zone holder
  acquired_iff_free r z now = ground arith

  pub holder-release :
      (r z y : String)
      → holder (release_zone r z s).0 y
        ≡ (if z == y then (if holds r (holder s z) then none else holder s z) else holder s y)
  unfolding release_zone holder holds
  holder-release r z y = ground (arith, get-remove s.locks z y, eq_iff z y)

  pub holder-release_all :
      (r y : String)
      → holder (release_all_for_robot r s) y ≡ (if holds r (holder s y) then none else holder s y)
  unfolding release_all_for_robot holder holds
  holder-release_all r y =
      ground (arith, get-delete_where s.locks (λ lock. lock.robot_id == r) y v.one_lock)
