-- ===== src/Validation/Examples.antt =====
-- A visit whose events come in the expected order.
use sai_aurosy.Prelude.{ℕ, ◌+◌, ◌≡◌, ◌↔◌, refl, true, false, none, some, [], ◌∷◌, map, ltb}
use sai_aurosy.Validation.{
  Basics, Assertion, CollectedEvent, AssertionContext, check_event_sequence, follow, follow_rest,
  seek,
}
use sai_aurosy.Validation.Evaluate.{check_kind, evaluate_assertion}
use sai_aurosy.Validation.Sequence.{Within, evaluate_assertion_iff}

abbrev plain : Basics ℕ
plain = record {
  to_lower = λ s. s;
  to_upper = λ s. s;
  trim_space = λ s. s;
  less = ltb;
  plus = λ a b. a + b;
  tenth = 0;
  half = 1;
}

abbrev in_order : Assertion
in_order = record {
  kind = "event_sequence";
  state = "";
  scenario_id = "";
  status = "";
  events = "navigation_started" ∷ "navigation_completed" ∷ [];
  event_type = "";
  field_name = "";
  negated = false;
  reason = "";
}

abbrev visit : AssertionContext ℕ
visit = record {
  robot_id = "sim-001";
  events =
      record { kind = "navigation_started"; timestamp = 1 }
      ∷ record { kind = "speaking"; timestamp = 2 }
      ∷ record { kind = "navigation_completed"; timestamp = 3 }
      ∷ [];
  telemetry_samples = [];
  tasks = [];
  final_robot_state = some "IDLE";
  sim_robot_state = none;
}

in_order_passes : evaluate_assertion plain in_order visit ≡ true
unfolding evaluate_assertion check_kind check_event_sequence follow follow_rest seek
in_order_passes = refl

evaluate_assertion_iff_example :
    (evaluate_assertion plain in_order visit ≡ true)
    ↔ Within in_order.events (map (λ (e : CollectedEvent). e.kind) visit.events)
evaluate_assertion_iff_example = evaluate_assertion_iff plain in_order visit refl
