-- ===== src/Api/Repeats.antt =====
-- A repeated idempotency key in pkg/control-plane/api/server.go, with the clean-up of the keys that
-- cmd/control-plane/main.go runs.
use sai_aurosy.Prelude.{
  ◌-◌, ◌+◌, ◌≤◌, ltb, ◌≡◌, ◌≢◌, refl, sym, subst, ap, ◌∙◌, inl, inr, Bool, false, not, ◌&&◌, Option,
  none, some, List, [], ◌∷◌, String, ◌==◌, arith, Bool-cases, Option-cases,
}
use sai_aurosy.Dict
use sai_aurosy.Dict.{Dict}
use sai_aurosy.Hal.{Time}
use sai_aurosy.Codec.{Codec}
use sai_aurosy.Telemetry.{Link}
use sai_aurosy.Idempotency.{MemoryEntry}
use sai_aurosy.Api.{Request, no_tenant, not_found, Server, with_robot, with_tenant, send_command}
use sai_aurosy.Idempotency.{cleanup}
use sai_aurosy.Api.Keys.{HasKey, first_use, with_keys-HasKey, with_keys-reserves, with_keys-again}

-- runIdempotencyCleanup: one tick of the ticker, at a time, with its 24 hours. A server without a
-- store has no such loop.
abbrev pub one_day : Time
one_day = 86400000

unfoldable pub clean_keys : Option (Dict MemoryEntry) → Time → Server → Server
clean_keys none now s = s
clean_keys (some keys) now s = record s { idempotency = some (cleanup one_day now keys) }

unfoldable pub run_idempotency_cleanup : Time → Server → Server
unfolding clean_keys
run_idempotency_cleanup now s = clean_keys s.idempotency now s

-- What happens to the keys of a server: command requests, and ticks of the clean-up.
pub data Step : Type 0 where
  request : Request → Step
  tick : Time → Step

-- No tick comes more than a day after a time.
abbrev pub WithinDay : Time → List Step → Type 0
WithinDay since [] = Unit
WithinDay since (request req ∷ steps) = WithinDay since steps
WithinDay since (tick now ∷ steps) = (now ≤ since + one_day) × WithinDay since steps

some_injective : {V : Type 0} (x y : V) → some x ≡ some y → x ≡ y
some_injective x y h = cc

delete_where-keeps :
    {V : Type 0} (p : V → Bool) (m : Dict V) (k : String) (v : V)
    → Dict.get m k ≡ some v
    → p v ≡ false
    → Dict.get (Dict.delete_where p m) k ≡ some v
unfolding Dict.get Dict.delete_where
delete_where-keeps p [] k v h n = h
delete_where-keeps p ((j, w) ∷ m) k v h n = elim (Bool-cases (j == k)) [
  | inl e ↦
      let same : w ≡ v = some_injective w v (simp e at h) in
      let stays : p w ≡ false = ap p same ∙ n in simp (stays, e) (ap (λ x. some x) same)
  | inr e ↦ elim (Bool-cases (p w)) [
    | inl q ↦ simp q (delete_where-keeps p m k v (simp e at h) n)
    | inr q ↦ simp (q, e) (delete_where-keeps p m k v (simp e at h) n)
  ]
]

tick-HasKey :
    (k : String) (t now : Time) (s : Server)
    → now ≤ t + one_day
    → HasKey k t s
    → HasKey k t (run_idempotency_cleanup now s)
unfolding run_idempotency_cleanup clean_keys cleanup
tick-HasKey k t now s l h =
    let fresh : ltb h.entry.created_at (now - one_day) ≡ false = ground (arith, l, h.reserved_at) in
    subst (λ o. HasKey k t (clean_keys o now s)) (sym h.kept)
      (record {
        keys = cleanup one_day now h.keys;
        kept = refl;
        entry = h.entry;
        reserved =
            delete_where-keeps (λ e. ltb e.created_at (now - one_day)) h.keys k h.entry h.reserved
              fresh;
        reserved_at = h.reserved_at;
      })

module _ {F : Type 0} (c : Codec F) (link : Link) (trim : String → String) where
  unfoldable pub perform : Step → Server → Server
  perform (request req) s = (send_command c link trim req s).0
  perform (tick now) s = run_idempotency_cleanup now s

  unfoldable pub run : List Step → Server → Server
  unfolding perform
  run [] s = s
  run (step ∷ steps) s = run steps (perform step s)

  send-HasKey :
      (k : String) (t : Time) (req : Request) (s : Server)
      → HasKey k t s
      → HasKey k t (send_command c link trim req s).0
  unfolding send_command with_tenant with_robot
  send-HasKey k t req s h = elim (Option-cases req.tenant) [
    | inl e ↦ rw e h
    | inr (tenant, e) ↦ elim (Option-cases (Dict.get s.registry req.robot_id)) [
      | inl r ↦ rw (e, r) h
      | inr (robot, r) ↦ elim (Bool-cases (not (tenant == "") && not (robot.tenant_id == tenant))) [
        | inl d ↦ rw (e, r, d) h
        | inr d ↦ simp (e, r, d) (with_keys-HasKey c link trim k t robot req s h)
      ]
    ]
  ]

  run-HasKey :
      (k : String) (t : Time) (steps : List Step) (s : Server)
      → WithinDay t steps
      → HasKey k t s
      → HasKey k t (run steps s)
  unfolding run perform
  run-HasKey k t [] s w h = h
  run-HasKey k t (request req ∷ steps) s w h = run-HasKey k t steps _ w (send-HasKey k t req s h)
  run-HasKey k t (tick now ∷ steps) s w h = run-HasKey k t steps _ w.1 (tick-HasKey k t now s w.0 h)

  send-reserves :
      (req : Request) (s : Server) (keys : Dict MemoryEntry)
      → s.idempotency ≡ some keys
      → (trim req.idempotency_key == "") ≡ false
      → (send_command c link trim req s).1 ≢ no_tenant
      → (send_command c link trim req s).1 ≢ not_found
      → HasKey
          (trim req.idempotency_key)
          (first_use (Dict.get keys (trim req.idempotency_key)) req.now)
          (send_command c link trim req s).0
  unfolding send_command with_tenant with_robot
  send-reserves req s keys i n a b = elim (Option-cases req.tenant) [
    | inl e ↦ absurd (a (rw e refl))
    | inr (tenant, e) ↦ elim (Option-cases (Dict.get s.registry req.robot_id)) [
      | inl r ↦ absurd (b (rw (e, r) refl))
      | inr (robot, r) ↦ elim (Bool-cases (not (tenant == "") && not (robot.tenant_id == tenant))) [
        | inl d ↦ absurd (b (rw (e, r, d) refl))
        | inr d ↦ simp (e, r, d) (with_keys-reserves c link trim robot req s keys i n)
      ]
    ]
  ]

  send-again :
      (req : Request) (s : Server) (t : Time)
      → HasKey (trim req.idempotency_key) t s
      → (trim req.idempotency_key == "") ≡ false
      → (send_command c link trim req s).0 ≡ s
  unfolding send_command with_tenant with_robot
  send-again req s t h n = elim (Option-cases req.tenant) [
    | inl e ↦ rw e refl
    | inr (tenant, e) ↦ elim (Option-cases (Dict.get s.registry req.robot_id)) [
      | inl r ↦ rw (e, r) refl
      | inr (robot, r) ↦ elim (Bool-cases (not (tenant == "") && not (robot.tenant_id == tenant))) [
        | inl d ↦ rw (e, r, d) refl
        | inr d ↦ simp (e, r, d) (with_keys-again c link trim robot req s t h n)
      ]
    ]
  ]

  -- Suppose the server keeps idempotency keys and a request had a key that is not blank and was not refused
  -- for its tenant or its robot. Then a later request with the same key changes nothing on the server,
  -- whatever command requests and clean-ups come between, as long as no clean-up runs more than 24 hours
  -- after the first use of the key, for whatever robot it is, and even if the first one failed: no command
  -- is sent or queued, no audit entry is written and no event is sent out.
  pub no_second_command :
      (req later : Request) (between : List Step) (s : Server) (keys : Dict MemoryEntry)
      → s.idempotency ≡ some keys
      → (trim req.idempotency_key == "") ≡ false
      → trim later.idempotency_key ≡ trim req.idempotency_key
      → (send_command c link trim req s).1 ≢ no_tenant
      → (send_command c link trim req s).1 ≢ not_found
      → WithinDay (first_use (Dict.get keys (trim req.idempotency_key)) req.now) between
      → let s' = run between (send_command c link trim req s).0 in
        (send_command c link trim later s').0 ≡ s'
  no_second_command req later between s keys i n same a b within =
      let since = first_use (Dict.get keys (trim req.idempotency_key)) req.now in
      send-again later (run between (send_command c link trim req s).0) since
        (rw same (
          run-HasKey (trim req.idempotency_key) since between (send_command c link trim req s).0
            within (send-reserves req s keys i n a b)))
        (rw same n)
