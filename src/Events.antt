-- ===== src/Events.antt =====
-- pkg/control-plane/events/broadcaster.go: events for the subscribers that are connected. A channel is
-- the list of what it holds, and lasts until the subscriber leaves. Every method runs under the mutex.
pub mod Bounded
use sai_aurosy.Prelude.{
  ℕ, Bool, Option, none, some, List, [], ◌∷◌, ◌++◌, String, ltb, length, if◌then◌else◌,
}
use sai_aurosy.Dict
use sai_aurosy.Dict.{Dict}
use sai_aurosy.Hal.{Time}

pub record Event : Type 0 where
  pub kind : String
  pub timestamp : Time
  pub content : List (String × String)

-- make(Subscriber, 32)
abbrev pub channel_capacity : ℕ
channel_capacity = 32

-- The channels by the names of their subscribers.
abbrev pub Broadcaster : Type 0
Broadcaster = Dict (List Event)

unfoldable pub subscribe : String → Broadcaster → Broadcaster
subscribe name b = Dict.put b name []

unfoldable pub unsubscribe : String → Broadcaster → Broadcaster
unsubscribe name b = Dict.remove b name

-- `select { case ch <- e: default: }`
unfoldable pub offer : Event → List Event → List Event
offer e held = if ltb (length held) channel_capacity then held ++ e ∷ [] else held

unfoldable pub broadcast : Event → Broadcaster → Broadcaster
unfolding offer
broadcast e [] = []
broadcast e ((name, held) ∷ rest) = (name, offer e held) ∷ broadcast e rest

unfoldable pub receive_from :
    Option (List Event) → String → Broadcaster → Broadcaster × Option Event
receive_from none name b = (b, none)
receive_from (some []) name b = (b, none)
receive_from (some (e ∷ es)) name b = (Dict.put b name es, some e)

-- A subscriber takes the oldest event of its channel.
unfoldable pub receive : String → Broadcaster → Broadcaster × Option Event
unfolding receive_from
receive name b = receive_from (Dict.get b name) name b
