-- ===== src/Api/Route.antt =====
-- Where an accepted command goes: to the bus or into the queue of an edge.
use sai_aurosy.Prelude.{
  ◌≡◌, ◌≢◌, refl, ap, inl, inr, Bool, true, false, Option, none, some, [], ◌∷◌, ◌++◌, String, ◌==◌,
  eq_iff, arith, Bool-cases,
}
use sai_aurosy.Dict.{Dict}
use sai_aurosy.Hal.{Robot, Command}
use sai_aurosy.Codec.{Codec}
use sai_aurosy.Telemetry.{Link, publish_command}
use sai_aurosy.Arbiter.Safety.{safety_allow}
use sai_aurosy.Arbiter.Permitted.{Permitted, safety_allow_iff}
use sai_aurosy.Arbiter.Routing.{append_entry}
use sai_aurosy.Edges.{MemoryStore, enqueue_command}
use sai_aurosy.Idempotency.{MemoryEntry}
use sai_aurosy.Api.{
  CommandRequest, Request, accepted, Server, publish, route, after_route, check_and_route,
  command_of, command_entry, audit_command, announce,
}

module _ {F : Type 0} (c : Codec F) (link : Link) (trim : String → String) where
  -- The command went to the bus, which accepted it, or into the queue of the robot's edge.
  pub data Moved (robot : Robot) (req : Request) (cmd : Command) (s s' : Server) : Type 0 where
    on_bus :
        link cmd ≡ true
        → s'.sent ≡ s.sent ++ cmd ∷ []
        → s'.edges ≡ s.edges
        → Moved robot req cmd s s'
    in_queue :
        (queue : MemoryStore)
        → s.edges ≡ some queue
        → robot.edge_id ≢ ""
        → s'.edges
          ≡ some (enqueue_command req.fresh_id robot.edge_id req.robot_id cmd req.now queue)
        → s'.sent ≡ s.sent
        → Moved robot req cmd s s'

  publish-Moved :
      (robot : Robot) (req : Request) (cmd : Command) (s : Server)
      → (publish c link trim cmd s).1 ≡ true
      → Moved robot req cmd s (publish c link trim cmd s).0
  unfolding publish publish_command
  publish-Moved robot req cmd s h = elim (Bool-cases (link cmd)) [
    | inl l ↦ simp l (on_bus l refl refl)
    | inr l ↦ absurd (ground (arith, l))
  ]

  route-Moved :
      (o : Option MemoryStore) (robot : Robot) (req : Request) (cmd : Command) (s : Server)
      → s.edges ≡ o
      → (route c link trim o robot cmd req s).1 ≡ true
      → Moved robot req cmd s (route c link trim o robot cmd req s).0
  unfolding route
  route-Moved none robot req cmd s e h = publish-Moved robot req cmd s h
  route-Moved (some queue) robot req cmd s e h = elim (Bool-cases (robot.edge_id == "")) [
    | inl b ↦ simp b (publish-Moved robot req cmd s (simp b at h))
    | inr b ↦ simp b (in_queue queue e (λ q. ground (arith, b, eq_iff robot.edge_id "")) refl refl)
  ]

  route-audits :
      (o : Option MemoryStore) (robot : Robot) (req : Request) (cmd : Command) (s : Server)
      → (route c link trim o robot cmd req s).0.audits ≡ s.audits
  unfolding route publish
  route-audits none robot req cmd s = refl
  route-audits (some queue) robot req cmd s = elim (Bool-cases (robot.edge_id == "")) [
    | inl e ↦ rw e refl
    | inr e ↦ rw e refl
  ]

  after_route-Moved :
      (robot : Robot) (body : CommandRequest) (req : Request) (cmd : Command) (s : Server)
      (r : Server × Bool)
      → (r.1 ≡ true → Moved robot req cmd s r.0)
      → r.0.audits ≡ s.audits
      → (after_route c link trim robot body req r).1 ≡ accepted
      → Moved robot req cmd s (after_route c link trim robot body req r).0
        × ((after_route c link trim robot body req r).0.audits
            ≡ append_entry (command_entry c link trim robot body true req) s.audits)
  unfolding after_route announce audit_command
  after_route-Moved robot body req cmd s (s', false) m a q = cc
  after_route-Moved robot body req cmd s (s', true) m a q = (again (m refl), ap (append_entry _) a)
    where
      again :
          Moved robot req cmd s s'
          → Moved robot req cmd s (after_route c link trim robot body req (s', true)).0
      again (on_bus l x y) = on_bus l x y
      again (in_queue queue x b y z) = in_queue queue x b y z

  pub check_and_route-Moved :
      (robot : Robot) (body : CommandRequest) (payload : String) (req : Request) (s : Server)
      → (check_and_route c link trim robot body payload req s).1 ≡ accepted
      → Permitted c (command_of c link trim body payload req)
        × Moved robot req
            (command_of c link trim body payload req)
            s
            (check_and_route c link trim robot body payload req s).0
        × ((check_and_route c link trim robot body payload req s).0.audits
            ≡ append_entry (command_entry c link trim robot body true req) s.audits)
  unfolding check_and_route
  check_and_route-Moved robot body payload req s q =
      elim (Bool-cases (safety_allow c (command_of c link trim body payload req))) [
        | inl e ↦ simp e (
          (safety_allow_iff c (command_of c link trim body payload req)).0 e,
          (done (simp e at q)).0,
          (done (simp e at q)).1,
        )
        | inr e ↦ absurd (ground (arith, e))
      ]
    where
      cmd : Command
      cmd = command_of c link trim body payload req

      done :
          (after_route c link trim robot body req (route c link trim s.edges robot cmd req s)).1
            ≡ accepted
          → Moved robot req cmd s
              (after_route c link trim robot body req (route c link trim s.edges robot cmd req s)).0
            × ((after_route c link trim robot body req
                  (route c link trim s.edges robot cmd req s)).0.audits
                ≡ append_entry (command_entry c link trim robot body true req) s.audits)
      done =
          after_route-Moved robot body req cmd s (route c link trim s.edges robot cmd req s)
            (route-Moved s.edges robot req cmd s refl) (route-audits s.edges robot req cmd s)

  -- The idempotency keys are not part of what is delivered.
  pub Moved-rebase :
      (robot : Robot) (req : Request) (cmd : Command) (s s' : Server)
      (o : Option (Dict MemoryEntry))
      → Moved robot req cmd (record s { idempotency = o }) s'
      → Moved robot req cmd s s'
  Moved-rebase robot req cmd s s' o (on_bus l x y) = on_bus l x y
  Moved-rebase robot req cmd s s' o (in_queue queue x b y z) = in_queue queue x b y z
