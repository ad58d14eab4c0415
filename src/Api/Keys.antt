-- ===== src/Api/Keys.antt =====
-- The idempotency keys in the command handler of pkg/control-plane/api/server.go.
use sai_aurosy.Prelude.{
  eq_iff, ◌≡◌, refl, sym, subst, ap, ◌∙◌, inl, inr, Bool, true, false, Option, none, some, String,
  ◌==◌, eq_refl, arith, is_some, Bool-cases, Option-cases,
}
use sai_aurosy.Dict
use sai_aurosy.Dict.{Dict}
use sai_aurosy.Dict.Laws.{get-put}
use sai_aurosy.Hal.{Time, Robot, Command}
use sai_aurosy.Codec.{Codec}
use sai_aurosy.Telemetry.{Link}
use sai_aurosy.Arbiter.Safety.{safety_allow}
use sai_aurosy.Edges.{MemoryStore}
use sai_aurosy.Idempotency.{MemoryEntry, reserve}
use sai_aurosy.Api.{
  CommandRequest, Request, Server, route, after_route, check_and_route, command_of, with_payload,
  with_body, after_reserve, with_keys, audit_command, announce,
}

-- The server has idempotency keys, and the key is among them since a time.
pub record HasKey (key : String) (since : Time) (s : Server) : Type 0 where
  pub keys : Dict MemoryEntry
  pub kept : s.idempotency ≡ some keys
  pub entry : MemoryEntry
  pub reserved : Dict.get keys key ≡ some entry
  pub reserved_at : entry.created_at ≡ since

-- When the key of a request at a time was first used: then, if it is not stored yet.
abbrev pub first_use : Option MemoryEntry → Time → Time
first_use none now = now
first_use (some e) now = e.created_at

module _ {F : Type 0} (c : Codec F) (link : Link) (trim : String → String) where
  route-idempotency :
      (o : Option MemoryStore) (robot : Robot) (cmd : Command) (req : Request) (s : Server)
      → (route c link trim o robot cmd req s).0.idempotency ≡ s.idempotency
  unfolding route
  route-idempotency none robot cmd req s = refl
  route-idempotency (some queue) robot cmd req s = elim (Bool-cases (robot.edge_id == "")) [
    | inl e ↦ rw e refl
    | inr e ↦ rw e refl
  ]

  after_route-idempotency :
      (robot : Robot) (body : CommandRequest) (req : Request) (r : Server × Bool)
      → (after_route c link trim robot body req r).0.idempotency ≡ r.0.idempotency
  unfolding after_route announce audit_command
  after_route-idempotency robot body req (s, false) = refl
  after_route-idempotency robot body req (s, true) = refl

  check_and_route-idempotency :
      (robot : Robot) (body : CommandRequest) (payload : String) (req : Request) (s : Server)
      → (check_and_route c link trim robot body payload req s).0.idempotency ≡ s.idempotency
  unfolding check_and_route audit_command
  check_and_route-idempotency robot body payload req s =
      elim (Bool-cases (safety_allow c (command_of c link trim body payload req))) [
        | inl e ↦ rw e (
            after_route-idempotency robot body req (route c link trim s.edges robot _ req s)
            ∙ route-idempotency s.edges robot _ req s)
        | inr e ↦ rw e refl
      ]

  with_body-idempotency :
      (o : Option CommandRequest) (robot : Robot) (req : Request) (s : Server)
      → (with_body c link trim o robot req s).0.idempotency ≡ s.idempotency
  unfolding with_body with_payload
  with_body-idempotency none robot req s = refl
  with_body-idempotency (some body) robot req s = payload_case body.payload
    where
      payload_case :
          (p : Option (Option String))
          → (with_payload c link trim p robot body req s).0.idempotency ≡ s.idempotency
      payload_case none = check_and_route-idempotency robot body "" req s
      payload_case (some none) = refl
      payload_case (some (some bytes)) = check_and_route-idempotency robot body bytes req s

  after_reserve-idempotency :
      (robot : Robot) (req : Request) (s : Server) (p : Dict MemoryEntry × Bool)
      → (after_reserve c link trim robot req s p).0.idempotency ≡ some p.0
  unfolding after_reserve
  after_reserve-idempotency robot req s (keys, false) = refl
  after_reserve-idempotency robot req s (keys, true) =
      with_body-idempotency req.body robot req (record s { idempotency = some keys })

  -- Reserving a key keeps the others.
  reserve-keeps :
      (key k robot_id : String) (now : Time) (keys : Dict MemoryEntry) (e : MemoryEntry)
      → Dict.get keys k ≡ some e
      → Dict.get (reserve key robot_id now keys).0 k ≡ some e
  unfolding reserve
  reserve-keeps key k robot_id now keys e h = elim (Bool-cases (is_some (Dict.get keys key))) [
    | inl i ↦ rw i h
    | inr i ↦
        rw (i, get-put keys key k (record { robot_id = robot_id; created_at = now }))
          (ground (arith, h, i, eq_iff key k))
  ]

  reserve-has :
      (key robot_id : String) (now : Time) (keys : Dict MemoryEntry)
      → (e : MemoryEntry) × (Dict.get (reserve key robot_id now keys).0 key ≡ some e)
        × (e.created_at ≡ first_use (Dict.get keys key) now)
  unfolding reserve
  reserve-has key robot_id now keys = elim (Option-cases (Dict.get keys key)) [
    | inr (e, g) ↦ (e, simp g refl, simp g refl)
    | inl g ↦
        let new : MemoryEntry = record { robot_id = robot_id; created_at = now } in
        (new, simp g (get-put keys key key new ∙ simp (eq_refl key) refl), simp g refl)
  ]

  reserve-again :
      (key robot_id : String) (now : Time) (keys : Dict MemoryEntry) (e : MemoryEntry)
      → Dict.get keys key ≡ some e
      → reserve key robot_id now keys ≡ (keys, false)
  unfolding reserve
  reserve-again key robot_id now keys e h = rw h refl

  pub with_keys-HasKey :
      (k : String) (t : Time) (robot : Robot) (req : Request) (s : Server)
      → HasKey k t s
      → HasKey k t (with_keys c link trim s.idempotency robot req s).0
  unfolding with_keys
  with_keys-HasKey k t robot req s h = elim (Bool-cases (trim req.idempotency_key == "")) [
    | inl e ↦
        subst (λ o. HasKey k t (with_keys c link trim o robot req s).0) (sym h.kept)
          (simp e (record {
            keys = h.keys;
            kept = with_body-idempotency req.body robot req s ∙ h.kept;
            entry = h.entry;
            reserved = h.reserved;
            reserved_at = h.reserved_at;
          }))
    | inr e ↦
        subst (λ o. HasKey k t (with_keys c link trim o robot req s).0) (sym h.kept)
          (simp e (record {
            keys = (reserve (trim req.idempotency_key) req.robot_id req.now h.keys).0;
            kept =
                after_reserve-idempotency robot req s
                  (reserve (trim req.idempotency_key) req.robot_id req.now h.keys);
            entry = h.entry;
            reserved =
                reserve-keeps (trim req.idempotency_key) k req.robot_id req.now h.keys h.entry
                  h.reserved;
            reserved_at = h.reserved_at;
          }))
  ]

  pub with_keys-reserves :
      (robot : Robot) (req : Request) (s : Server) (keys : Dict MemoryEntry)
      → s.idempotency ≡ some keys
      → (trim req.idempotency_key == "") ≡ false
      → HasKey
          (trim req.idempotency_key)
          (first_use (Dict.get keys (trim req.idempotency_key)) req.now)
          (with_keys c link trim s.idempotency robot req s).0
  unfolding with_keys
  with_keys-reserves robot req s keys e n =
      let (e', g, t) = reserve-has (trim req.idempotency_key) req.robot_id req.now keys in
      subst
        (λ o.
          HasKey (trim req.idempotency_key)
            (first_use (Dict.get keys (trim req.idempotency_key)) req.now)
            (with_keys c link trim o robot req s).0)
        (sym e)
        (simp n (record {
          keys = (reserve (trim req.idempotency_key) req.robot_id req.now keys).0;
          kept =
              after_reserve-idempotency robot req s
                (reserve (trim req.idempotency_key) req.robot_id req.now keys);
          entry = e';
          reserved = g;
          reserved_at = t;
        }))

  pub with_keys-again :
      (robot : Robot) (req : Request) (s : Server) (t : Time)
      → HasKey (trim req.idempotency_key) t s
      → (trim req.idempotency_key == "") ≡ false
      → (with_keys c link trim s.idempotency robot req s).0 ≡ s
  unfolding with_keys after_reserve
  with_keys-again robot req s t h n =
      ap (λ o. (with_keys c link trim o robot req s).0) h.kept
      ∙ simp
          (
            n,
            reserve-again (trim req.idempotency_key) req.robot_id req.now h.keys h.entry h.reserved,
          )
          (ap (λ o. record s { idempotency = o }) (sym h.kept))
