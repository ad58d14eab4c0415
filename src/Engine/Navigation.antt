-- ===== src/Engine/Navigation.antt =====
-- internal/robot/navigation_executor.go. `Execute` sends two commands and then watches the robot. What
-- happens while it watches is a list of signals in their order: a telemetry message, for which the
-- handler runs, or one round of the `select`, by the case that it takes. A case that is not ready is not
-- taken: a `notified` before the handler closed `done` has no effect. A list that ends too early
-- leaves `Execute` waiting. The logs are left out.
pub mod Arrival
use sai_aurosy.Prelude.{
  Bool, true, false, not, ◌&&◌, ◌||◌, Option, none, some, List, [], ◌∷◌, String, ◌==◌, ltb,
  if◌then◌else◌,
}
use sai_aurosy.Prelude.Int.{ℤ, pos, is_positive, to_ℕ}
use Prim.Native.Nat.{◌+◌}
use sai_aurosy.Hal.{Time, Command}
use sai_aurosy.Codec.{Codec, NavPayload}
use sai_aurosy.Telemetry.{Link, publish_command}
use sai_aurosy.Arbiter.Safety.{safety_allow}

-- pkg/hal/types.go, the fields of a telemetry message that the handler reads.
pub record Telemetry (F : Type 0) : Type 0 where
  pub online : Bool
  pub distance_to_target : Option F

-- The timeout is in milliseconds.
pub record NavigationRequest : Type 0 where
  pub robot_id : String
  pub task_id : String
  pub target_coords : String
  pub store_name : String
  pub dest_node_id : String
  pub operator_id : String
  pub is_return : Bool
  pub timeout : ℤ

pub record NavigationResult : Type 0 where
  pub success : Bool
  pub timeout : Bool
  pub cancelled : Bool
  pub reason : String

pub record NavigationExecutor (F : Type 0) : Type 0 where
  pub arrival_threshold : F
  pub default_timeout : ℤ

pub data Signal (F : Type 0) : Type 0 where
  message : Telemetry F → Signal F
  context_done notified : Signal F
  tick : Time → Signal F

abbrev pub failure : String → NavigationResult
failure reason = record { success = false; timeout = false; cancelled = false; reason = reason }

abbrev pub arrival : NavigationResult
arrival = record { success = true; timeout = false; cancelled = false; reason = "" }

abbrev pub nothing_yet : NavigationResult
nothing_yet = record { success = false; timeout = false; cancelled = false; reason = "" }

abbrev pub context_cancelled : NavigationResult
context_cancelled = record {
  success = false;
  timeout = false;
  cancelled = true;
  reason = "context cancelled";
}

abbrev pub timed_out : NavigationResult
timed_out = record {
  success = false;
  timeout = true;
  cancelled = false;
  reason = "navigation timeout";
}

-- result.Success || result.Timeout || result.Cancelled || result.Reason != ""
abbrev pub is_set : NavigationResult → Bool
is_set r = r.success || r.timeout || r.cancelled || not (r.reason == "")

module _ {F : Type 0} (c : Codec F) where
  new_navigation_executor : F → ℤ → NavigationExecutor F
  new_navigation_executor threshold default_timeout = record {
    arrival_threshold =
        if c.less (c.tenths (pos 0)) threshold then threshold else c.tenths (pos 10);
    default_timeout = if is_positive default_timeout then default_timeout else pos 120000;
  }

  -- 0 <= d and d < threshold
  abbrev pub is_near : F → F → Bool
  is_near threshold d = not (c.less d (c.tenths (pos 0))) && c.less d threshold

  after_distance : F → Option F → NavigationResult → NavigationResult
  after_distance threshold none r = r
  after_distance threshold (some d) r = if is_near threshold d then arrival else r

  -- The handler of the telemetry subscription.
  on_telemetry : F → Telemetry F → NavigationResult → NavigationResult
  unfolding after_distance
  on_telemetry threshold t r =
      if is_set r
      then r
      else if not t.online
      then failure "robot offline"
      else after_distance threshold t.distance_to_target r

  -- The loop over the `select`.
  monitor : F → Time → List (Signal F) → NavigationResult → Option NavigationResult
  unfolding on_telemetry
  monitor threshold deadline [] r = none
  monitor threshold deadline (message t ∷ signals) r =
      monitor threshold deadline signals (on_telemetry threshold t r)
  monitor threshold deadline (context_done ∷ signals) r =
      some (if not r.success && not r.timeout then context_cancelled else r)
  monitor threshold deadline (notified ∷ signals) r =
      let rest = monitor threshold deadline signals r in if is_set r then some r else rest
  monitor threshold deadline (tick now ∷ signals) r =
      let rest = monitor threshold deadline signals r in
      if is_set r then some r else if ltb deadline now then some timed_out else rest

  pub walk_command : NavigationRequest → Time → Command
  walk_command req now = record {
    robot_id = req.robot_id;
    command = "walk_mode";
    payload = "";
    timestamp = now;
    operator_id = req.operator_id;
  }

  -- The target and the store's name, and the node unless it is empty.
  pub nav_command : NavigationRequest → Time → Command
  nav_command req now = record {
    robot_id = req.robot_id;
    command = "navigate_to";
    payload = c.encode_nav (record {
      target_coordinates = req.target_coords;
      store_name = req.store_name;
      target_store = "";
      destination_node_id = req.dest_node_id;
    });
    timestamp = now;
    operator_id = req.operator_id;
  }

  unfoldable pub deadline_of : NavigationExecutor F → NavigationRequest → Time → Time
  deadline_of e req now =
      now + to_ℕ (if is_positive req.timeout then req.timeout else e.default_timeout)

  module _ (link : Link) where
    -- The publication of a command that is dropped if it is unsafe; its error is only logged.
    pub publish_if_safe : Command → List Command → List Command
    unfolding publish_command
    publish_if_safe cmd sent =
        if safety_allow c cmd then (publish_command link cmd sent).0 else sent

    after_navigate :
        NavigationExecutor F
        → NavigationRequest
        → Time
        → Bool
        → List (Signal F)
        → List Command × Bool
        → List Command × Option NavigationResult
    unfolding monitor deadline_of
    after_navigate e req now subscribes signals (sent, false) =
        (sent, some (failure "publish failed"))
    after_navigate e req now subscribes signals (sent, true) =
        if not subscribes
        then (sent, some (failure "subscribe failed"))
        else (sent, monitor e.arrival_threshold (deadline_of e req now) signals nothing_yet)

    -- `subscribes` is whether the subscription to the telemetry succeeds.
    unfoldable pub execute :
        NavigationExecutor F
        → NavigationRequest
        → Time
        → Bool
        → List (Signal F)
        → List Command
        → List Command × Option NavigationResult
    unfolding publish_if_safe walk_command nav_command after_navigate publish_command
    execute e req now subscribes signals sent =
        let walking = publish_if_safe (walk_command req now) sent in
        let cmd = nav_command req now in
        if not (safety_allow c cmd)
        then (walking, some (failure "safety rejected navigate_to"))
        else after_navigate e req now subscribes signals (publish_command link cmd walking)
