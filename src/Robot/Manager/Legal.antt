-- ===== src/Robot/Manager/Legal.antt =====
-- Which states a robot goes through under `Transition` and `GetOrCreate`.
use sai_aurosy.Prelude.{
  ◌≡◌, subst, ap, ◌∙◌, inl, inr, false, Option, none, some, List, [], ◌∷◌, String, ◌==◌, eq_iff,
  eq_refl, arith, if◌then◌else◌, Bool-cases, Option-cases,
}
use sai_aurosy.Dict
use sai_aurosy.Dict.Laws.{get-put}
use sai_aurosy.Hal.{Time}
use sai_aurosy.Robot.StateMachine.{RobotState, RobotContext, idle, can_transition}
use sai_aurosy.Robot.StateMachine.Paths.{Reach, here, move, Reach-trans}
use sai_aurosy.Robot.Manager.{
  Manager, Details, transition, get_or_create, try_move, moved, fresh, blank,
}

state_in : Option RobotContext → RobotState
state_in none = idle
state_in (some ctx) = ctx.current_state

-- The state of a robot; one that is not known counts as idle, as in `GetRobotState`.
unfoldable pub state_of : Manager → String → RobotState
unfolding state_in
state_of m robot_id = state_in (Dict.get m robot_id)

module _ (r : String) (t : RobotState) (d : Details) (now : Time) where
  move_lem :
      (ctx : RobotContext) (m : Manager)
      → Dict.get m r ≡ some ctx
      → ((try_move t d now r ctx m).1 ≡ can_transition ctx.current_state t)
        × (state_of (try_move t d now r ctx m).0 r
            ≡ (if can_transition ctx.current_state t then t else ctx.current_state))
        × ((q : String) → (r == q) ≡ false → Dict.get (try_move t d now r ctx m).0 q ≡ Dict.get m q)
  unfolding try_move state_of
  move_lem ctx m e = (
    ground arith,
    ground (arith, get-put m r r (moved t d now ctx), eq_refl r),
    λ q n. ground (arith, get-put m r q (moved t d now ctx)),
  )

  -- `Transition` returns true exactly when `CanTransition` accepts the move from the robot's state;
  -- then the robot is in the target state, otherwise its state is as before. Every other robot's
  -- context is unchanged.
  pub transition_lem :
      (m : Manager)
      → ((transition r t d now m).1 ≡ can_transition (state_of m r) t)
        × (state_of (transition r t d now m).0 r
            ≡ (if can_transition (state_of m r) t then t else state_of m r))
        × ((q : String) → (r == q) ≡ false → Dict.get (transition r t d now m).0 q ≡ Dict.get m q)
  unfolding transition state_of
  transition_lem m = elim (Option-cases (Dict.get m r)) [
    | inl e ↦
        let ctx = fresh r d now in
        let m' = Dict.put m r ctx in
        let (a, b, k) = move_lem ctx m' (rw (get-put m r r ctx) (rw (eq_refl r))) in
        rw e (a, b, λ q n. k q n ∙ rw (get-put m r q ctx) (rw n))
    | inr (ctx, e) ↦ rw e (move_lem ctx m e)
  ]

transition-Reach :
    (r : String) (t : RobotState) (d : Details) (now : Time) (m : Manager) (q : String)
    → Reach (state_of m q) (state_of (transition r t d now m).0 q)
transition-Reach r t d now m q = elim (Bool-cases (r == q)) [
  | inl e ↦
      subst (λ x. Reach (state_of m x) (state_of (transition r t d now m).0 x)) ((eq_iff r q).0 e)
        own_path
  | inr e ↦ rw (other_state e) here
]
  where
    own_path : Reach (state_of m r) (state_of (transition r t d now m).0 r)
    own_path = elim (Bool-cases (can_transition (state_of m r) t)) [
      | inl g ↦ rw ((transition_lem r t d now m).1, g) (move here g)
      | inr g ↦ rw ((transition_lem r t d now m).1, g) here
    ]

    other_state : (r == q) ≡ false → state_of (transition r t d now m).0 q ≡ state_of m q
    other_state e = unfold state_of in ap state_in ((transition_lem r t d now m).2 q e)

-- What clients call: changes of state, and reads that create a context.
pub data Call : Type 0 where
  change : String → RobotState → Details → Time → Call
  read : String → Time → Call

unfoldable pub perform : Call → Manager → Manager
perform (change r t d now) m = (transition r t d now m).0
perform (read r now) m = (get_or_create r now m).0

unfoldable pub perform_all : List Call → Manager → Manager
unfolding perform
perform_all [] m = m
perform_all (call ∷ calls) m = perform_all calls (perform call m)

state-read :
    (r q : String) (now : Time) (m : Manager) → state_of (get_or_create r now m).0 q ≡ state_of m q
unfolding get_or_create state_of
state-read r q now m = elim (Option-cases (Dict.get m r)) [
  | inl e ↦ ground (arith, e, get-put m r q (blank r now), eq_iff r q)
  | inr (ctx, e) ↦ rw e
]

perform-Reach :
    (call : Call) (m : Manager) (q : String) → Reach (state_of m q) (state_of (perform call m) q)
unfolding perform
perform-Reach (change r t d now) m q = transition-Reach r t d now m q
perform-Reach (read r now) m q = rw (state-read r q now m) here

-- Whatever changes and reads clients make, each robot's state afterwards is reached from its state
-- before by transitions that `CanTransition` accepts.
pub perform_all-Reach :
    (calls : List Call) (m : Manager) (q : String)
    → Reach (state_of m q) (state_of (perform_all calls m) q)
unfolding perform_all
perform_all-Reach [] m q = here
perform_all-Reach (call ∷ calls) m q =
    Reach-trans (perform-Reach call m q) (perform_all-Reach calls (perform call m) q)
