-- ===== src/Edge/Sync/Relay.antt =====
-- What a heartbeat puts on the local bus.
use mathlib.Core.List.{append-nil, append_assoc}
use sai_aurosy.Prelude.{
  ◌≡◌, sym, ◌↔◌, inl, inr, Bool, true, ◌&&◌, none, some, List, [], ◌∷◌, ◌++◌, arith, Bool-cases,
  if◌then◌else◌, nat_eq, ◌≢◌, eq_iff,
}
use sai_aurosy.Prelude.Lists.{select}
use sai_aurosy.Hal.{Time, Command}
use sai_aurosy.Codec.{Codec}
use sai_aurosy.Telemetry.{Link, publish_command}
use sai_aurosy.Edge.Safety.{safety_allow}
use sai_aurosy.Arbiter.Permitted.{Permitted, safety_allow_iff}
use sai_aurosy.Edge.Mirror.{mirror}
use sai_aurosy.Edge.Sync.{
  invalid, unreachable, heartbeat_request, Config, HttpRequest, HttpReply, response, after_reply,
  relay, sync,
}

-- The commands that a reply hands over: those of a decoded body under status 200.
pub pending_of : HttpReply → List Command
pending_of invalid = []
pending_of unreachable = []
pending_of (response status none) = []
pending_of (response status (some pending)) = if nat_eq status 200 then pending else []

module _ {F : Type 0} (c : Codec F) (link : Link) where
  abbrev pub deliverable : Command → Bool
  deliverable cmd = safety_allow c cmd && link cmd

  relay-eq-select :
      (cmds sent : List Command) → relay c link cmds sent ≡ sent ++ select deliverable cmds
  unfolding select relay
  relay-eq-select [] sent = sym (append-nil sent)
  relay-eq-select (cmd ∷ cmds) sent = elim (Bool-cases (safety_allow c cmd)) [
    | inl e ↦ elim (Bool-cases (link cmd)) [
      | inl l ↦
          rw (e, l, publish_command)
            (rw (relay-eq-select cmds (sent ++ cmd ∷ []))
              (append_assoc sent (cmd ∷ []) (select deliverable cmds)))
      | inr l ↦ rw (e, l, publish_command) (relay-eq-select cmds sent)
    ]
    | inr e ↦ rw e (relay-eq-select cmds sent)
  ]

  after_reply-select :
      (reply : HttpReply) (sent : List Command)
      → (after_reply c link reply sent).0 ≡ sent ++ select deliverable (pending_of reply)
  unfolding after_reply pending_of select
  after_reply-select invalid sent = sym (append-nil sent)
  after_reply-select unreachable sent = sym (append-nil sent)
  after_reply-select (response status none) sent = ground (arith, append-nil sent)
  after_reply-select (response status (some pending)) sent =
      ground (arith, append-nil sent, relay-eq-select pending sent)

  deliverable_iff :
      (cmd : Command)
      → (deliverable cmd ≡ true)
        ↔ (Permitted c cmd × (cmd.command ≢ "navigate_to") × (link cmd ≡ true))
  deliverable_iff cmd = (
    λ h. (
      (safety_allow_iff c cmd).0 (ground (arith, mirror c cmd)),
      ground (arith, mirror c cmd, eq_iff cmd.command "navigate_to"),
      ground arith,
    ),
    λ (p, n, l).
        ground
          (arith, mirror c cmd, (safety_allow_iff c cmd).1 p, eq_iff cmd.command "navigate_to"),
  )

  -- After a heartbeat the local bus holds the former commands and then, in their order, those
  -- pending commands of the cloud's reply that are deliverable; a reply other than a decoded body
  -- under status 200 adds none. A command is
  -- deliverable exactly when the control plane's safety test permits it, it is not `navigate_to`,
  -- and the bus accepts it.
  pub sync_lem :
      (cloud : HttpRequest → HttpReply) (cfg : Config) (now : Time) (sent : List Command)
      → ((sync c link cloud cfg now sent).0
          ≡ sent ++ select deliverable (pending_of (cloud (heartbeat_request cfg now))))
        × ((cmd : Command)
            → (deliverable cmd ≡ true)
              ↔ (Permitted c cmd × (cmd.command ≢ "navigate_to") × (link cmd ≡ true)))
  unfolding sync
  sync_lem cloud cfg now sent =
      (after_reply-select (cloud (heartbeat_request cfg now)) sent, deliverable_iff)
