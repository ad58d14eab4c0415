-- ===== src/Streaming/Examples.antt =====
-- A ring of two slots that got three events: the first is lost, the other two come sorted.
use mathlib.Core.List.{Permᴰ}
use sai_aurosy.Prelude.{
  ℕ, ◌≡◌, refl, Bool, List, [], ◌∷◌, String, ◌==◌, arith, ltb, nat_eq, if◌then◌else◌, map,
}
use sai_aurosy.Prelude.Lists.{select}
use sai_aurosy.Prelude.Int.{pos}
use sai_aurosy.Hal.{Time}
use sai_aurosy.Streaming.{
  effective_capacity, new_ring_buffer, make_event, add, collect, insert, sort_by_id, get_since,
}
use sai_aurosy.Streaming.Recent.{last_n, events_of, add_all}
use sai_aurosy.Streaming.Since.{IsOrder, IsSorted, buffer, get_since-last}

abbrev rank : String → ℕ
rank s = if s == "" then 0 else if s == "a" then 1 else if s == "b" then 2 else 3

abbrev less : String → String → Bool
less s t = ltb (rank s) (rank t)

abbrev event_id : Time → String
event_id t = if nat_eq t 1 then "a" else if nat_eq t 2 then "b" else "c"

less-IsOrder : IsOrder less
less-IsOrder = record { asymmetric = λ a b h. ground arith; transitive = λ a b c h k. ground arith }

abbrev events : List (Time × ℕ)
events = (1, 10) ∷ (3, 30) ∷ (2, 20) ∷ []

get_since_run :
    map (λ e. e.telemetry) (get_since less "" (buffer less event_id (pos 2) events)) ≡ 20 ∷ 30 ∷ []
unfolding get_since collect sort_by_id insert add_all add make_event new_ring_buffer
    effective_capacity
get_since_run = refl

get_since-last_example :
    Permᴰ (get_since less "a" (buffer less event_id (pos 2) events)) (
      select (λ e. less "a" e.id) (last_n (effective_capacity (pos 2)) (events_of event_id events)))
    × IsSorted less (get_since less "a" (buffer less event_id (pos 2) events))
get_since-last_example = get_since-last less event_id (pos 2) events "a" less-IsOrder
