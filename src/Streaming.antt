-- ===== src/Streaming.antt =====
-- pkg/control-plane/streaming/buffer.go: the ring of telemetry events for clients that reconnect.
-- The ring is the list of its slots from `b.ring` on. The format of a timestamp and the order of
-- texts are parameters, and so is the payload of an event. `sort.Slice` is an insertion sort: it
-- promises nothing of the order of equal identifiers.
pub mod Recent
pub mod Since
mod Examples
use sai_aurosy.Prelude.{
  ℕ, zero, suc, Bool, Option, none, some, List, [], ◌∷◌, ◌++◌, String, if◌then◌else◌,
}
use sai_aurosy.Prelude.Int.{ℤ, pos, is_positive, to_ℕ}
use sai_aurosy.Hal.{Time}

abbrev pub default_buffer_capacity : ℕ
default_buffer_capacity = 1000

pub record BufferedEvent (T : Type 0) : Type 0 where
  pub id : String
  pub timestamp : Time
  pub telemetry : T

pub record RingBuffer (T : Type 0) : Type 0 where
  pub ring : List (Option (BufferedEvent T))
  pub capacity : ℕ

-- `ring.New(n)` for n > 0
abbrev pub empty_slots : (T : Type 0) → ℕ → List (Option (BufferedEvent T))
empty_slots T zero = []
empty_slots T (suc n) = none ∷ empty_slots T n

unfoldable pub effective_capacity : ℤ → ℕ
effective_capacity capacity =
    if is_positive capacity then to_ℕ capacity else default_buffer_capacity

unfoldable pub new_ring_buffer : (T : Type 0) → ℤ → RingBuffer T
unfolding effective_capacity
new_ring_buffer T capacity =
    let n = effective_capacity capacity in record { ring = empty_slots T n; capacity = n }

module _ {T : Type 0} where
  -- The slot at `b.ring` takes the event, and the ring moves on by one slot.
  abbrev pub write_slot :
      BufferedEvent T → List (Option (BufferedEvent T)) → List (Option (BufferedEvent T))
  write_slot ev [] = []
  write_slot ev (slot ∷ slots) = slots ++ some ev ∷ []

  module _ (event_id : Time → String) where
    unfoldable pub make_event : Time → T → BufferedEvent T
    make_event timestamp t = record {
      id = event_id timestamp;
      timestamp = timestamp;
      telemetry = t;
    }

    unfoldable pub add : Time → T → RingBuffer T → RingBuffer T
    unfolding make_event
    add timestamp t b = record b { ring = write_slot (make_event timestamp t) b.ring }

  module _ (less : String → String → Bool) where
    -- The function that `Do` calls on each slot.
    unfoldable pub collect : String → List (Option (BufferedEvent T)) → List (BufferedEvent T)
    collect last_id [] = []
    collect last_id (none ∷ slots) = collect last_id slots
    collect last_id (some ev ∷ slots) =
        let rest = collect last_id slots in if less last_id ev.id then ev ∷ rest else rest

    unfoldable pub insert : BufferedEvent T → List (BufferedEvent T) → List (BufferedEvent T)
    insert ev [] = ev ∷ []
    insert ev (x ∷ xs) =
        let rest = insert ev xs in if less x.id ev.id then x ∷ rest else ev ∷ x ∷ xs

    unfoldable pub sort_by_id : List (BufferedEvent T) → List (BufferedEvent T)
    unfolding insert
    sort_by_id [] = []
    sort_by_id (x ∷ xs) = insert x (sort_by_id xs)

    unfoldable pub get_since : String → RingBuffer T → List (BufferedEvent T)
    unfolding collect sort_by_id
    get_since last_id b = sort_by_id (collect last_id b.ring)
