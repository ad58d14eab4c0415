-- ===== src/Api/Delivered.antt =====
-- What an accepted command has done.
use sai_aurosy.Prelude.{
  ◌≡◌, refl, ap, ◌⊎◌, inl, inr, Bool, true, false, not, ◌&&◌, ◌||◌, Option, none, some, String,
  ◌==◌, eq_iff, arith, is_some, Bool-cases, Option-cases,
}
use sai_aurosy.Dict
use sai_aurosy.Dict.{Dict}
use sai_aurosy.Hal.{Time, Robot}
use sai_aurosy.Codec.{Codec}
use sai_aurosy.Telemetry.{Link}
use sai_aurosy.Arbiter.Permitted.{Permitted}
use sai_aurosy.Arbiter.Routing.{append_entry}
use sai_aurosy.Idempotency.{MemoryEntry, reserve}
use sai_aurosy.Api.{
  CommandRequest, Request, not_found, accepted, Server, command_of, command_entry, with_payload,
  with_body, after_reserve, with_keys, with_robot, with_tenant, send_command,
}
use sai_aurosy.Api.Route.{Moved, check_and_route-Moved, Moved-rebase}

-- The key of a request is blank, or not used yet, or the server keeps none.
abbrev pub is_fresh : Option (Dict MemoryEntry) → String → Bool
is_fresh none key = true
is_fresh (some keys) key = key == "" || not (is_some (Dict.get keys key))

-- The payload of the command: empty where the request has none.
abbrev pub bytes_of : Option (Option String) → Option String
bytes_of none = some ""
bytes_of (some bytes) = bytes

module _ {F : Type 0} (c : Codec F) (link : Link) (trim : String → String) where
  pub record Delivered (req : Request) (s s' : Server) : Type 0 where
    pub robot : Robot
    pub found : Dict.get s.registry req.robot_id ≡ some robot
    pub tenant : String
    pub given : req.tenant ≡ some tenant
    pub own : (tenant ≡ "") ⊎ (robot.tenant_id ≡ tenant)
    pub body : CommandRequest
    pub decoded : req.body ≡ some body
    pub payload : String
    pub encoded : bytes_of body.payload ≡ some payload
    pub permitted : Permitted c (command_of c link trim body payload req)
    pub moved : Moved c link trim robot req (command_of c link trim body payload req) s s'
    pub audited : s'.audits ≡ append_entry (command_entry c link trim robot body true req) s.audits

  -- The part of `Delivered` behind the look at the key.
  pub record Passed (robot : Robot) (req : Request) (s s' : Server) : Type 0 where
    pub body : CommandRequest
    pub decoded : req.body ≡ some body
    pub payload : String
    pub encoded : bytes_of body.payload ≡ some payload
    pub permitted : Permitted c (command_of c link trim body payload req)
    pub moved : Moved c link trim robot req (command_of c link trim body payload req) s s'
    pub audited : s'.audits ≡ append_entry (command_entry c link trim robot body true req) s.audits

  with_body-Passed :
      (o : Option CommandRequest) (robot : Robot) (req : Request) (s : Server)
      → req.body ≡ o
      → (with_body c link trim o robot req s).1 ≡ accepted
      → Passed robot req s (with_body c link trim o robot req s).0
  unfolding with_body with_payload
  with_body-Passed none robot req s e q = cc
  with_body-Passed (some body) robot req s e q = payload_case body.payload refl q
    where
      payload_case :
          (p : Option (Option String))
          → body.payload ≡ p
          → (with_payload c link trim p robot body req s).1 ≡ accepted
          → Passed robot req s (with_payload c link trim p robot body req s).0
      payload_case none k h =
          let m = check_and_route-Moved c link trim robot body "" req s h in
          record {
            body = body;
            decoded = e;
            payload = "";
            encoded = ap bytes_of k;
            permitted = m.0;
            moved = m.1;
            audited = m.2;
          }
      payload_case (some none) k h = cc
      payload_case (some (some bytes)) k h =
          let m = check_and_route-Moved c link trim robot body bytes req s h in
          record {
            body = body;
            decoded = e;
            payload = bytes;
            encoded = ap bytes_of k;
            permitted = m.0;
            moved = m.1;
            audited = m.2;
          }

  Passed-rebase :
      (robot : Robot) (req : Request) (s s' : Server) (o : Option (Dict MemoryEntry))
      → Passed robot req (record s { idempotency = o }) s'
      → Passed robot req s s'
  Passed-rebase robot req s s' o p = record {
    body = p.body;
    decoded = p.decoded;
    payload = p.payload;
    encoded = p.encoded;
    permitted = p.permitted;
    moved =
        Moved-rebase c link trim robot req (command_of c link trim p.body p.payload req) s s' o
          p.moved;
    audited = p.audited;
  }

  reserve-fresh :
      (key robot_id : String) (now : Time) (keys : Dict MemoryEntry)
      → is_some (Dict.get keys key) ≡ false
      → reserve key robot_id now keys
        ≡ (Dict.put keys key (record { robot_id = robot_id; created_at = now }), true)
  unfolding reserve
  reserve-fresh key robot_id now keys h = rw h refl

  with_keys-Passed :
      (o : Option (Dict MemoryEntry)) (robot : Robot) (req : Request) (s : Server)
      → is_fresh o (trim req.idempotency_key) ≡ true
      → (with_keys c link trim o robot req s).1 ≡ accepted
      → Passed robot req s (with_keys c link trim o robot req s).0
  unfolding with_keys after_reserve
  with_keys-Passed none robot req s f q = with_body-Passed req.body robot req s refl q
  with_keys-Passed (some keys) robot req s f q =
      elim (Bool-cases (trim req.idempotency_key == "")) [
        | inl e ↦ simp e (with_body-Passed req.body robot req s refl (simp e at q))
        | inr e ↦
            let new =
              reserve-fresh (trim req.idempotency_key) req.robot_id req.now keys
                (ground (arith, e)) in
            simp (e, new)
              (Passed-rebase robot req s _ (some _) (
                with_body-Passed req.body robot req (record s { idempotency = some _ }) refl
                  (simp (e, new) at q)))
      ]

  -- Suppose the idempotency key of a request is blank, or not used before, or the server keeps none. If the
  -- server accepts the request, then the robot is registered and is of the caller's tenant (or the
  -- caller is an administrator), the body and its payload were readable, the safety test permits the
  -- command, the command was added once, to the bus or to the queue of the robot's edge, and an audit
  -- log has one more entry, which marks it as allowed.
  pub accepted-Delivered :
      (req : Request) (s : Server)
      → is_fresh s.idempotency (trim req.idempotency_key) ≡ true
      → (send_command c link trim req s).1 ≡ accepted
      → Delivered req s (send_command c link trim req s).0
  unfolding send_command with_tenant with_robot
  accepted-Delivered req s f q = elim (Option-cases req.tenant) [
    | inl e ↦ absurd (ground (arith, e))
    | inr (tenant, e) ↦ elim (Option-cases (Dict.get s.registry req.robot_id)) [
      | inl r ↦ let k : not_found ≡ accepted = simp (e, r) at q in cc
      | inr (robot, r) ↦ elim (Bool-cases (not (tenant == "") && not (robot.tenant_id == tenant))) [
        | inl d ↦ let k : not_found ≡ accepted = simp (e, r, d) at q in cc
        | inr d ↦
            let p = with_keys-Passed s.idempotency robot req s f (simp (e, r, d) at q) in
            simp (e, r, d)
              (record {
                robot = robot;
                found = r;
                tenant = tenant;
                given = e;
                own = tenant_case tenant robot d;
                body = p.body;
                decoded = p.decoded;
                payload = p.payload;
                encoded = p.encoded;
                permitted = p.permitted;
                moved = p.moved;
                audited = p.audited;
              })
      ]
    ]
  ]
    where
      tenant_case :
          (tenant : String) (robot : Robot)
          → not (tenant == "") && not (robot.tenant_id == tenant) ≡ false
          → (tenant ≡ "") ⊎ (robot.tenant_id ≡ tenant)
      tenant_case tenant robot d = elim (Bool-cases (tenant == "")) [
        | inl y ↦ inl ((eq_iff tenant "").0 y)
        | inr y ↦ inr ((eq_iff robot.tenant_id tenant).0 (ground (arith, y, d)))
      ]
