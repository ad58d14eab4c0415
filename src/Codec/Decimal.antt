-- ===== src/Codec/Decimal.antt =====
-- A codec for tests: numbers count tenths, and a few texts stand for payloads.
use sai_aurosy.Prelude.{Bool, true, false, none, some, ◌==◌, ltb, if◌then◌else◌}
use sai_aurosy.Prelude.Int.{ℤ, pos, negsuc}
use sai_aurosy.Codec.{Codec, Velocity, NavPayload}

abbrev pub int_less : ℤ → ℤ → Bool
int_less (pos a) (pos b) = ltb a b
int_less (pos a) (negsuc b) = false
int_less (negsuc a) (pos b) = true
int_less (negsuc a) (negsuc b) = ltb b a

-- A velocity along x.
abbrev pub forward : ℤ → Velocity ℤ
forward x = record { linear_x = x; linear_y = pos 0; angular_z = pos 0 }

abbrev pub shop : NavPayload
shop = record {
  target_coordinates = "1,2,0";
  store_name = "Shoes";
  target_store = "Shoes";
  destination_node_id = "n4";
}

abbrev pub decimal : Codec ℤ
decimal = record {
  less = int_less;
  tenths = λ x. x;
  decode_velocity = λ s.
      if s == "slow"
      then some (forward (negsuc 4))
      else if s == "fast"
      then some (forward (pos 90))
      else none;
  decode_target = λ s. if s == "shop" then some shop else none;
  decode_nav = λ s. shop;
  decode_task = λ s. record {
    duration_sec = pos 1;
    velocity = forward (pos 3);
    zone_id = if s == "aisle" then "X" else "";
    target_coordinates = "";
    store_name = "";
  };
  encode_velocity = λ v. "slow";
  encode_nav = λ p. "shop";
}
