-- ===== src/Arbiter/Routing/Trace.antt =====
-- What the arbiter has published and written to the audit log after any sequence of commands.
use mathlib.Core.List.{append-nil, append_assoc}
use sai_aurosy.Prelude.Lists.{select}
use sai_aurosy.Prelude.{
  ℕ, suc, ◌+◌, ◌≡◌, refl, ap, sym, ◌∙◌, ◌↔◌, inl, inr, Bool, true, false, ◌&&◌, Option, none, some,
  List, [], ◌∷◌, ◌++◌, arith, length, length-append, All, All-append, is_some, if◌then◌else◌,
  Bool-cases,
}
use sai_aurosy.Dict
use sai_aurosy.Dict.{Dict}
use sai_aurosy.Hal.{Time, Robot, Command}
use sai_aurosy.Codec.{Codec}
use sai_aurosy.Telemetry.{Link}
use sai_aurosy.Arbiter.Permitted.{Permitted, safety_allow_iff}
use sai_aurosy.Arbiter.Safety.{safety_allow}
use sai_aurosy.Arbiter.Routing.{
  AuditEntry, Arbiter, entry_of, audit, handle_command, handle_all, append_entry,
}

unfoldable pub allowed_count : List AuditEntry → ℕ
allowed_count [] = 0
allowed_count (e ∷ es) = let rest = allowed_count es in if e.allowed then suc rest else rest

allowed_count-append :
    (es : List AuditEntry) (e : AuditEntry)
    → allowed_count (es ++ e ∷ []) ≡ allowed_count es + (if e.allowed then 1 else 0)
unfolding allowed_count
allowed_count-append [] e = ground arith
allowed_count-append (x ∷ es) e = ground (arith, allowed_count-append es e)

module _ {F : Type 0} (c : Codec F) (link : Link) where
  -- A command that may stand on the bus: its robot is registered and the safety test permits it.
  pub record Routable (registry : Dict Robot) (cmd : Command) : Type 0 where
    pub registered : is_some (Dict.get registry cmd.robot_id) ≡ true
    pub permitted : Permitted c cmd

  pub record IsSound (a : Arbiter) : Type 0 where
    pub routed : All (Routable a.registry) a.sent
    pub recorded : (es : List AuditEntry) → a.audits ≡ some es → allowed_count es ≡ length a.sent

  abbrev pub routes : Dict Robot → Command → Bool
  routes registry cmd = is_some (Dict.get registry cmd.robot_id) && safety_allow c cmd && link cmd

  handle_command-routes :
      (cmd : Command) (now : Time) (a : Arbiter)
      → routes a.registry cmd ≡ true
      → handle_command c link cmd now a
        ≡ audit cmd true now (record a { sent = a.sent ++ cmd ∷ [] })
  unfolding handle_command
  handle_command-routes cmd now a h = ground arith

  handle_command-rejects :
      (cmd : Command) (now : Time) (a : Arbiter)
      → routes a.registry cmd ≡ false
      → handle_command c link cmd now a ≡ audit cmd false now a
  unfolding handle_command
  handle_command-rejects cmd now a h = ground arith

  routes-Routable :
      (a : Arbiter) (cmd : Command) → routes a.registry cmd ≡ true → Routable a.registry cmd
  routes-Routable a cmd h = record {
    registered = ground arith;
    permitted = (safety_allow_iff c cmd).0 (ground arith);
  }

  audit-recorded :
      (cmd : Command) (b : Bool) (now : Time) (old : Option (List AuditEntry)) (n : ℕ)
      → ((es : List AuditEntry) → old ≡ some es → allowed_count es ≡ n)
      → (es : List AuditEntry) → append_entry (entry_of cmd b now) old ≡ some es
      → allowed_count es ≡ n + (if b then 1 else 0)
  unfolding append_entry entry_of
  audit-recorded cmd b now none n h es e = cc
  audit-recorded cmd b now (some old) n h es e =
      ground (arith, allowed_count-append old (entry_of cmd b now), h old refl)

  handle_command-IsSound :
      (cmd : Command) (now : Time) (a : Arbiter)
      → IsSound a
      → IsSound (handle_command c link cmd now a)
  unfolding audit
  handle_command-IsSound cmd now a s = elim (Bool-cases (routes a.registry cmd)) [
    | inl r ↦ rw (handle_command-routes cmd now a r) (record {
      routed =
          All-append (Routable a.registry) a.sent (cmd ∷ []) s.routed (routes-Routable a cmd r, tt);
      recorded = λ es e.
          rw (length-append a.sent (cmd ∷ []))
            (audit-recorded cmd true now a.audits (length a.sent) s.recorded es e);
    })
    | inr r ↦ rw (handle_command-rejects cmd now a r) (record {
      routed = s.routed;
      recorded = λ es e.
          ground (arith, audit-recorded cmd false now a.audits (length a.sent) s.recorded es e);
    })
  ]

  -- Whatever commands the arbiter handles: if at the start each published command was for a
  -- registered robot and permitted by the safety test, and the audit log (where there is one) had as
  -- many entries marked as allowed as there were published commands, then both hold at the end.
  pub handle_all-IsSound :
      (cmds : List (Command × Time)) (a : Arbiter) → IsSound a → IsSound (handle_all c link cmds a)
  unfolding handle_all
  handle_all-IsSound [] a s = s
  handle_all-IsSound ((cmd, now) ∷ cmds) a s =
      handle_all-IsSound cmds (handle_command c link cmd now a) (handle_command-IsSound cmd now a s)

  abbrev pub commands : List (Command × Time) → List Command
  commands [] = []
  commands ((cmd, now) ∷ cmds) = cmd ∷ commands cmds

  -- The audit entries of the commands, each with its decision.
  unfoldable pub decisions : Dict Robot → List (Command × Time) → List AuditEntry
  decisions registry [] = []
  decisions registry ((cmd, now) ∷ cmds) =
      entry_of cmd (routes registry cmd) now ∷ decisions registry cmds

  routes_iff :
      (registry : Dict Robot) (cmd : Command)
      → (routes registry cmd ≡ true)
        ↔ ((is_some (Dict.get registry cmd.robot_id) ≡ true) × Permitted c cmd × (link cmd ≡ true))
  routes_iff registry cmd = (
    λ h. (ground arith, (safety_allow_iff c cmd).0 (ground arith), ground arith),
    λ (r, p, l). ground (arith, (safety_allow_iff c cmd).1 p),
  )

  handle_all-sent :
      (cmds : List (Command × Time)) (a : Arbiter)
      → (handle_all c link cmds a).sent ≡ a.sent ++ select (routes a.registry) (commands cmds)
  unfolding handle_all select
  handle_all-sent [] a = sym (append-nil a.sent)
  handle_all-sent ((cmd, now) ∷ cmds) a = elim (Bool-cases (routes a.registry cmd)) [
    | inl r ↦
        ap (λ x. (handle_all c link cmds x).sent) (handle_command-routes cmd now a r)
        ∙ handle_all-sent cmds (audit cmd true now (record a { sent = a.sent ++ cmd ∷ [] }))
        ∙ unfold audit in
          rw r (append_assoc a.sent (cmd ∷ []) (select (routes a.registry) (commands cmds)))
    | inr r ↦
        ap (λ x. (handle_all c link cmds x).sent) (handle_command-rejects cmd now a r)
        ∙ handle_all-sent cmds (audit cmd false now a)
        ∙ unfold audit in rw r refl
  ]

  -- The entry of the first command goes before those of the others.
  after_step-audits :
      (cmd : Command) (now : Time) (cmds : List (Command × Time)) (a : Arbiter)
      (es : List AuditEntry) (b : Bool) (a' : Arbiter)
      → handle_command c link cmd now a ≡ a'
      → routes a.registry cmd ≡ b
      → a'.registry ≡ a.registry
      → (handle_all c link cmds a').audits
        ≡ some ((es ++ entry_of cmd b now ∷ []) ++ decisions a'.registry cmds)
      → (handle_all c link ((cmd, now) ∷ cmds) a).audits
        ≡ some (es ++ decisions a.registry ((cmd, now) ∷ cmds))
  unfolding handle_all decisions
  after_step-audits cmd now cmds a es b a' step r same h =
      ap (λ x. (handle_all c link cmds x).audits) step
      ∙ h
      ∙ rw (same, r)
          (ap some (append_assoc es (entry_of cmd b now ∷ []) (decisions a.registry cmds)))

  handle_all-audits :
      (cmds : List (Command × Time)) (a : Arbiter) (es : List AuditEntry)
      → a.audits ≡ some es
      → (handle_all c link cmds a).audits ≡ some (es ++ decisions a.registry cmds)
  handle_all-audits [] a es e = unfold handle_all decisions in e ∙ ap some (sym (append-nil es))
  handle_all-audits ((cmd, now) ∷ cmds) a es e = elim (Bool-cases (routes a.registry cmd)) [
    | inl r ↦
        let a' = audit cmd true now (record a { sent = a.sent ++ cmd ∷ [] }) in
        after_step-audits cmd now cmds a es true a' (handle_command-routes cmd now a r) r
          (unfold audit in refl)
          (handle_all-audits cmds a' (es ++ entry_of cmd true now ∷ [])
            (unfold audit append_entry in rw e refl))
    | inr r ↦
        let a' = audit cmd false now a in
        after_step-audits cmd now cmds a es false a' (handle_command-rejects cmd now a r) r
          (unfold audit in refl)
          (handle_all-audits cmds a' (es ++ entry_of cmd false now ∷ [])
            (unfold audit append_entry in rw e refl))
  ]

  -- After any sequence of commands the arbiter has published, behind what was on the bus before and in
  -- their order, exactly the commands for registered robots that the safety test permits and the bus
  -- accepts; and an audit log got one entry for each handled command, in order, marked as allowed
  -- exactly for those.
  pub handle_all_lem :
      (cmds : List (Command × Time)) (a : Arbiter)
      → ((handle_all c link cmds a).sent ≡ a.sent ++ select (routes a.registry) (commands cmds))
        × ((es : List AuditEntry)
            → a.audits ≡ some es
            → (handle_all c link cmds a).audits ≡ some (es ++ decisions a.registry cmds))
        × ((cmd : Command)
            → (routes a.registry cmd ≡ true) ↔ (
                (is_some (Dict.get a.registry cmd.robot_id) ≡ true)
                × Permitted c cmd
                × (link cmd ≡ true)))
  handle_all_lem cmds a = (handle_all-sent cmds a, handle_all-audits cmds a, routes_iff a.registry)
