-- ===== src/Arbiter/Permitted.antt =====
-- Which commands the safety test lets through, described apart from the code.
use sai_aurosy.Prelude.{
  ◌≡◌, ◌≢◌, refl, ◌↔◌, inl, inr, true, false, some, String, ◌==◌, eq_iff, arith, Bool-cases,
  Option-cases,
}
use sai_aurosy.Hal.{Command}
use sai_aurosy.Codec.{Codec, Velocity, NavPayload}
use sai_aurosy.Arbiter.Safety.{
  linear_vel_min, linear_vel_max, angular_vel_min, angular_vel_max, validate_cmd_vel_payload,
  validate_navigate_to_payload, safety_allow,
}

module _ {F : Type 0} (c : Codec F) where
  -- Not below the lower limit and not above the upper one.
  abbrev pub Between : F → F → F → Type 0
  Between lo hi x = (c.less x lo ≡ false) × (c.less hi x ≡ false)

  pub record InLimits (v : Velocity F) : Type 0 where
    pub x_range : Between (linear_vel_min c) (linear_vel_max c) v.linear_x
    pub y_range : Between (linear_vel_min c) (linear_vel_max c) v.linear_y
    pub z_range : Between (angular_vel_min c) (angular_vel_max c) v.angular_z

  pub data Permitted (cmd : Command) : Type 0 where
    stop : cmd.command ≡ "safe_stop" → Permitted cmd
    release : cmd.command ≡ "release_control" → Permitted cmd
    zero_mode : cmd.command ≡ "zero_mode" → Permitted cmd
    stand_mode : cmd.command ≡ "stand_mode" → Permitted cmd
    walk_mode : cmd.command ≡ "walk_mode" → Permitted cmd
    drive :
        cmd.command ≡ "cmd_vel"
        → cmd.payload ≢ ""
        → (v : Velocity F) → c.decode_velocity cmd.payload ≡ some v
        → InLimits v
        → Permitted cmd
    navigate :
        cmd.command ≡ "navigate_to"
        → cmd.payload ≢ ""
        → (t : NavPayload) → c.decode_target cmd.payload ≡ some t
        → t.target_coordinates ≢ ""
        → Permitted cmd

  velocity_allowed :
      (p : String)
      → validate_cmd_vel_payload c p ≡ true
      → (p ≢ "") × ((v : Velocity F) × (c.decode_velocity p ≡ some v) × InLimits v)
  unfolding validate_cmd_vel_payload
  velocity_allowed p h = elim (Option-cases (c.decode_velocity p)) [
    | inl e ↦ ground (arith, e)
    | inr (v, e) ↦ (ground (arith, eq_iff p ""), (v, e, ground (arith, e)))
  ]

  velocity_passes :
      (p : String) (v : Velocity F)
      → p ≢ ""
      → c.decode_velocity p ≡ some v
      → InLimits v
      → validate_cmd_vel_payload c p ≡ true
  unfolding validate_cmd_vel_payload
  velocity_passes p v n e l = ground (arith, eq_iff p "")

  target_allowed :
      (p : String)
      → validate_navigate_to_payload c p ≡ true
      → (p ≢ "") × ((t : NavPayload) × (c.decode_target p ≡ some t) × (t.target_coordinates ≢ ""))
  unfolding validate_navigate_to_payload
  target_allowed p h = elim (Option-cases (c.decode_target p)) [
    | inl e ↦ ground (arith, e)
    | inr (t, e) ↦
        (ground (arith, eq_iff p ""), (t, e, ground (arith, e, eq_iff t.target_coordinates "")))
  ]

  target_passes :
      (p : String) (t : NavPayload)
      → p ≢ ""
      → c.decode_target p ≡ some t
      → t.target_coordinates ≢ ""
      → validate_navigate_to_payload c p ≡ true
  unfolding validate_navigate_to_payload
  target_passes p t n e l = ground (arith, eq_iff p "", eq_iff t.target_coordinates "")

  Permitted-of-safety_allow : (cmd : Command) → safety_allow c cmd ≡ true → Permitted cmd
  unfolding safety_allow
  Permitted-of-safety_allow cmd h = elim (Bool-cases (cmd.command == "safe_stop")) [
    | inl e ↦ stop ((eq_iff _ _).0 e)
    | inr n0 ↦ elim (Bool-cases (cmd.command == "release_control")) [
      | inl e ↦ release ((eq_iff _ _).0 e)
      | inr n1 ↦ elim (Bool-cases (cmd.command == "zero_mode")) [
        | inl e ↦ zero_mode ((eq_iff _ _).0 e)
        | inr n2 ↦ elim (Bool-cases (cmd.command == "stand_mode")) [
          | inl e ↦ stand_mode ((eq_iff _ _).0 e)
          | inr n3 ↦ elim (Bool-cases (cmd.command == "walk_mode")) [
            | inl e ↦ walk_mode ((eq_iff _ _).0 e)
            | inr n4 ↦ elim (Bool-cases (cmd.command == "cmd_vel")) [
              | inl e ↦
                  let (n, (v, d, l)) = velocity_allowed cmd.payload (ground arith) in
                  drive ((eq_iff _ _).0 e) n v d l
              | inr n6 ↦ elim (Bool-cases (cmd.command == "navigate_to")) [
                | inl e ↦
                    let (n, (t, d, l)) = target_allowed cmd.payload (ground arith) in
                    navigate ((eq_iff _ _).0 e) n t d l
                | inr n7 ↦ absurd (ground arith)
              ]
            ]
          ]
        ]
      ]
    ]
  ]

  safety_allow-of-Permitted : (cmd : Command) → Permitted cmd → safety_allow c cmd ≡ true
  unfolding safety_allow
  safety_allow-of-Permitted cmd (stop e) = rw e refl
  safety_allow-of-Permitted cmd (release e) = rw e refl
  safety_allow-of-Permitted cmd (zero_mode e) = rw e refl
  safety_allow-of-Permitted cmd (stand_mode e) = rw e refl
  safety_allow-of-Permitted cmd (walk_mode e) = rw e refl
  safety_allow-of-Permitted cmd (drive e n v d l) = rw e (velocity_passes cmd.payload v n d l)
  safety_allow-of-Permitted cmd (navigate e n t d l) = rw e (target_passes cmd.payload t n d l)

  -- The safety test returns true exactly on the permitted commands: the stop, release and mode
  -- commands whatever their payload, `cmd_vel` with a decodable payload within the velocity limits,
  -- and `navigate_to` with a decodable payload that names target coordinates.
  pub safety_allow_iff : (cmd : Command) → (safety_allow c cmd ≡ true) ↔ Permitted cmd
  safety_allow_iff cmd = (Permitted-of-safety_allow cmd, safety_allow-of-Permitted cmd)
