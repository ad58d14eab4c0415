-- ===== src/Engine/Navigation/Arrival.antt =====
-- When a navigation ends, and what its success means.
use sai_aurosy.Prelude.{
  ◌≡◌, ◌≢◌, ◌<◌, refl, ◌∙◌, inl, inr, Bool, true, false, none, some, List, [], ◌∷◌, ◌++◌, Memᴰ,
  arith, ltb, Bool-cases, Option-cases,
}
use sai_aurosy.Hal.{Time, Command}
use sai_aurosy.Codec.{Codec}
use sai_aurosy.Telemetry.{Link, publish_command}
use sai_aurosy.Arbiter.Safety.{safety_allow}
use sai_aurosy.Arbiter.Permitted.{Permitted, safety_allow_iff}
use sai_aurosy.Engine.Navigation.{
  Telemetry, NavigationRequest, NavigationResult, NavigationExecutor, Signal, message, context_done,
  notified, tick, nothing_yet, is_set, is_near, on_telemetry, monitor, nav_command, walk_command,
  deadline_of, publish_if_safe, after_navigate, execute,
}

module _ {F : Type 0} (c : Codec F) where
  -- A message of a robot that is online and reports a distance below the threshold and not negative.
  pub record Arrives (threshold : F) (t : Telemetry F) : Type 0 where
    pub is_online : t.online ≡ true
    pub distance : F
    pub reported : t.distance_to_target ≡ some distance
    pub near : is_near c threshold distance ≡ true

  -- Some message among the signals is of a robot that has arrived.
  pub record HasArrival (threshold : F) (signals : List (Signal F)) : Type 0 where
    pub telemetry : Telemetry F
    pub received : Memᴰ (message telemetry) signals
    pub arrives : Arrives threshold telemetry

  later :
      {threshold : F} {s : Signal F} {signals : List (Signal F)}
      → HasArrival threshold signals
      → HasArrival threshold (s ∷ signals)
  later h = record { telemetry = h.telemetry; received = Memᴰ.tail h.received; arrives = h.arrives }

  on_telemetry-Arrives :
      (threshold : F) (t : Telemetry F) (r : NavigationResult)
      → r.success ≡ false
      → (on_telemetry c threshold t r).success ≡ true
      → Arrives threshold t
  unfolding on_telemetry
  on_telemetry-Arrives threshold t r n h = elim (Option-cases t.distance_to_target) [
    | inl e ↦ absurd (ground (arith, e))
    | inr (d, e) ↦ record {
      is_online = ground (arith, e);
      distance = d;
      reported = e;
      near = ground (arith, e);
    }
  ]

  monitor-HasArrival :
      (threshold : F) (deadline : Time) (signals : List (Signal F)) (r out : NavigationResult)
      → r.success ≡ false
      → monitor c threshold deadline signals r ≡ some out
      → out.success ≡ true
      → HasArrival threshold signals
  unfolding monitor
  monitor-HasArrival threshold deadline [] r out n q h = cc
  monitor-HasArrival threshold deadline (message t ∷ signals) r out n q h =
      elim (Bool-cases (on_telemetry c threshold t r).success) [
        | inl e ↦ record {
          telemetry = t;
          received = Memᴰ.head refl;
          arrives = on_telemetry-Arrives threshold t r n e;
        }
        | inr e ↦ later (monitor-HasArrival threshold deadline signals _ out e q h)
      ]
  monitor-HasArrival threshold deadline (context_done ∷ signals) r out n q h = absurd (ground arith)
  monitor-HasArrival threshold deadline (notified ∷ signals) r out n q h =
      elim (Bool-cases (is_set r)) [
        | inl e ↦ absurd (ground (arith, e))
        | inr e ↦ later (monitor-HasArrival threshold deadline signals r out n (rw e at q) h)
      ]
  monitor-HasArrival threshold deadline (tick now ∷ signals) r out n q h =
      elim (Bool-cases (is_set r)) [
        | inl e ↦ absurd (ground (arith, e))
        | inr e ↦ elim (Bool-cases (ltb deadline now)) [
          | inl l ↦ absurd (ground (arith, e, l))
          | inr l ↦ later (monitor-HasArrival threshold deadline signals r out n (rw (e, l) at q) h)
        ]
      ]

  monitor-ends :
      (threshold : F) (deadline late : Time) (signals : List (Signal F)) (r : NavigationResult)
      → Memᴰ (tick late) signals
      → deadline < late
      → monitor c threshold deadline signals r ≢ none
  unfolding monitor
  monitor-ends threshold deadline late [] r m l = elim m [ ]
  monitor-ends threshold deadline late (message t ∷ signals) r (Memᴰ.head e) l =
      absurd (ground arith)
  monitor-ends threshold deadline late (message t ∷ signals) r (Memᴰ.tail m) l =
      monitor-ends threshold deadline late signals (on_telemetry c threshold t r) m l
  monitor-ends threshold deadline late (context_done ∷ signals) r m l = λ q. cc
  monitor-ends threshold deadline late (notified ∷ signals) r (Memᴰ.head e) l =
      absurd (ground arith)
  monitor-ends threshold deadline late (notified ∷ signals) r (Memᴰ.tail m) l =
      elim (Bool-cases (is_set r)) [
        | inl e ↦ rw e (λ q. cc)
        | inr e ↦ rw e (monitor-ends threshold deadline late signals r m l)
      ]
  monitor-ends threshold deadline late (tick now ∷ signals) r m l = elim (Bool-cases (is_set r)) [
    | inl e ↦ rw e (λ q. cc)
    | inr e ↦ elim (Bool-cases (ltb deadline now)) [
      | inl b ↦ rw (e, b) (λ q. cc)
      | inr b ↦ rw (e, b) (monitor-ends threshold deadline late signals r (not_now m b) l)
    ]
  ]
    where
      not_now :
          Memᴰ (tick late) (tick now ∷ signals)
          → ltb deadline now ≡ false
          → Memᴰ (tick late) signals
      not_now (Memᴰ.head p) b = absurd (ground arith)
      not_now (Memᴰ.tail k) b = k

module _ {F : Type 0} (c : Codec F) (link : Link) where
  after_navigate-ends :
      (e : NavigationExecutor F) (req : NavigationRequest) (now late : Time) (subscribes : Bool)
      (signals : List (Signal F)) (p : List Command × Bool)
      → Memᴰ (tick late) signals
      → deadline_of c e req now < late
      → (after_navigate c link e req now subscribes signals p).1 ≢ none
  unfolding after_navigate
  after_navigate-ends e req now late subscribes signals (sent, false) m l = λ q. cc
  after_navigate-ends e req now late subscribes signals (sent, true) m l =
      elim (Bool-cases subscribes) [
        | inl y ↦ rw y (
            monitor-ends c e.arrival_threshold (deadline_of c e req now) late signals nothing_yet m
              l)
        | inr y ↦ rw y (λ q. cc)
      ]

  -- `Execute` returns, whatever the robot reports, if the ticker fires once after the deadline.
  pub execute-ends :
      (e : NavigationExecutor F) (req : NavigationRequest) (now late : Time) (subscribes : Bool)
      (signals : List (Signal F)) (sent : List Command)
      → Memᴰ (tick late) signals
      → deadline_of c e req now < late
      → (execute c link e req now subscribes signals sent).1 ≢ none
  unfolding execute
  execute-ends e req now late subscribes signals sent m l =
      elim (Bool-cases (safety_allow c (nav_command c req now))) [
        | inl y ↦ rw y (after_navigate-ends e req now late subscribes signals _ m l)
        | inr y ↦ rw y (λ q. cc)
      ]

  -- A navigation that succeeded: the command went out last and is permitted, and the robot arrived.
  pub record Succeeded (e : NavigationExecutor F) (req : NavigationRequest) (now : Time)
      (signals : List (Signal F)) (sent sent' : List Command) : Type 0 where
    pub commanded :
        sent' ≡ publish_if_safe c link (walk_command c req now) sent ++ nav_command c req now ∷ []
    pub permitted : Permitted c (nav_command c req now)
    pub arrived : HasArrival c e.arrival_threshold signals

  after_navigate-Succeeded :
      (e : NavigationExecutor F) (req : NavigationRequest) (now : Time) (subscribes : Bool)
      (signals : List (Signal F)) (p : List Command × Bool) (out : NavigationResult)
      → (after_navigate c link e req now subscribes signals p).1 ≡ some out
      → out.success ≡ true
      → (p.1 ≡ true)
        × ((after_navigate c link e req now subscribes signals p).0 ≡ p.0)
        × HasArrival c e.arrival_threshold signals
  unfolding after_navigate
  after_navigate-Succeeded e req now subscribes signals (sent, false) out q h =
      absurd (ground arith)
  after_navigate-Succeeded e req now subscribes signals (sent, true) out q h =
      elim (Bool-cases subscribes) [
        | inl y ↦ rw y (
          refl,
          refl,
          monitor-HasArrival c e.arrival_threshold (deadline_of c e req now) signals nothing_yet out
              refl (rw y at q) h,
        )
        | inr y ↦ absurd (ground (arith, y))
      ]

  -- If `Execute` returns success, then the last command on the bus is the robot's `navigate_to`, which
  -- the safety test permits, behind `walk_mode` where the bus took it, and a telemetry
  -- message came in while it watched that had the robot online and nearer than the threshold.
  pub execute-Succeeded :
      (e : NavigationExecutor F) (req : NavigationRequest) (now : Time) (subscribes : Bool)
      (signals : List (Signal F)) (sent : List Command) (out : NavigationResult)
      → (execute c link e req now subscribes signals sent).1 ≡ some out
      → out.success ≡ true
      → Succeeded e req now signals sent (execute c link e req now subscribes signals sent).0
  unfolding execute
  execute-Succeeded e req now subscribes signals sent out q h =
      elim (Bool-cases (safety_allow c cmd)) [
        | inl y ↦ elim (Bool-cases (link cmd)) [
          | inl l ↦
              let k =
                after_navigate-Succeeded e req now subscribes signals
                  (publish_command link cmd walking) out (rw y at q) h in
              rw y (record {
                commanded = k.1 ∙ unfold publish_command in rw l refl;
                permitted = (safety_allow_iff c cmd).0 y;
                arrived = k.2;
              })
          | inr l ↦
              let k =
                after_navigate-Succeeded e req now subscribes signals
                  (publish_command link cmd walking) out (rw y at q) h in
              absurd (unfold publish_command in ground (arith, k.0, l))
        ]
        | inr y ↦ absurd (ground (arith, y))
      ]
    where
      cmd : Command
      cmd = nav_command c req now

      walking : List Command
      walking = publish_if_safe c link (walk_command c req now) sent
