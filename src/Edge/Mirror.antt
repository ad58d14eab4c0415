-- ===== src/Edge/Mirror.antt =====
-- The edge's safety test against the one that it says it mirrors.
use sai_aurosy.Prelude.{
  ◌≡◌, inl, inr, String, not, ◌&&◌, ◌==◌, eq_iff, arith, Bool-cases, Option-cases,
}
use sai_aurosy.Hal.{Command}
use sai_aurosy.Codec.{Codec}
use sai_aurosy.Arbiter.Safety
use sai_aurosy.Edge.Safety as EdgeSafety

module _ {F : Type 0} (c : Codec F) where
  same_limits :
      (p : String) → EdgeSafety.validate_cmd_vel_payload c p ≡ Safety.validate_cmd_vel_payload c p
  unfolding EdgeSafety.validate_cmd_vel_payload Safety.validate_cmd_vel_payload
  same_limits p = elim (Option-cases (c.decode_velocity p)) [
    | inl e ↦ rw e (ground arith)
    | inr (v, e) ↦ rw e (ground arith)
  ]

  -- The edge's safety test agrees with the control plane's on every command other than `navigate_to`,
  -- and refuses every `navigate_to`.
  pub mirror :
      (cmd : Command)
      → EdgeSafety.safety_allow c cmd
        ≡ Safety.safety_allow c cmd && not (cmd.command == "navigate_to")
  unfolding EdgeSafety.safety_allow Safety.safety_allow
  mirror cmd = elim (Bool-cases (cmd.command == "navigate_to")) [
    | inl e ↦ rw ((eq_iff cmd.command "navigate_to").0 e) (ground arith)
    | inr e ↦ ground (arith, e, same_limits cmd.payload)
  ]
