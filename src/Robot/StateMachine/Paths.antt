-- ===== src/Robot/StateMachine/Paths.antt =====
-- Which states follow which, over any number of transitions.
use sai_aurosy.Prelude.{◌≡◌, ◌≢◌, refl, subst, ◌⊎◌, inl, inr, true, arith}
use sai_aurosy.Robot.StateMachine.{
  RobotState, idle, navigating, arrived, returning, error, can_transition,
}

-- Zero or more transitions that `CanTransition` accepts, the latest last.
pub data Reach (s : RobotState) : RobotState → Type 0 where
  here : Reach s s
  move : {t u : RobotState} → Reach s t → can_transition t u ≡ true → Reach s u

pub Reach-trans : {s t u : RobotState} → Reach s t → Reach t u → Reach s u
Reach-trans p here = p
Reach-trans p (move q h) = move (Reach-trans p q) h

-- A path between two states that goes through a third.
pub record Through (s via t : RobotState) : Type 0 where
  pub before : Reach s via
  pub after : Reach via t

before_arrived : (t : RobotState) → can_transition t arrived ≡ true → t ≡ navigating
unfolding can_transition
before_arrived t h = ground arith

-- A robot that arrives, and did not stand there at the start, was navigating.
pub arrives_by_navigating :
    {s : RobotState} → Reach s arrived → (s ≡ arrived) ⊎ Through s navigating arrived
unfolding can_transition
arrives_by_navigating here = inl refl
arrives_by_navigating (move {t} p h) =
    inr (record { before = subst (Reach _) (before_arrived t h) p; after = move here refl })

abbrev pub InRecovery : RobotState → Type 0
InRecovery t = (t ≡ error) ⊎ (t ≡ returning)

after_recovery :
    (t u : RobotState) → InRecovery t → can_transition t u ≡ true → InRecovery u ⊎ (u ≡ idle)
unfolding can_transition
after_recovery t u r h = ground arith

recovers : {s t : RobotState} → InRecovery s → Reach s t → InRecovery t ⊎ Through s idle t
recovers r here = inl r
recovers r (move {t} {u} p h) = elim (recovers r p) [
  | inl q ↦ elim (after_recovery t u q h) [
    | inl q' ↦ inl q'
    | inr e ↦ inr (rw e (record { before = subst (Reach _) e (move p h); after = here }))
  ]
  | inr q ↦ inr (record { before = q.before; after = move q.after h })
]

-- After an error, or on the way back to the base, a robot can reach any state other than these two
-- only by way of idle.
pub recovers_by_idle :
    {s t : RobotState} → InRecovery s → Reach s t → (t ≢ error) → (t ≢ returning) → Through s idle t
recovers_by_idle r p m n = elim (recovers r p) [
  | inl (inl e) ↦ absurd (m e)
  | inl (inr e) ↦ absurd (n e)
  | inr q ↦ q
]
