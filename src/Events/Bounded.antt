-- ===== src/Events/Bounded.antt =====
-- No channel holds more than its capacity, and a broadcast keeps what the channels hold.
use sai_aurosy.Prelude.{
  ◌≤◌, ◌≡◌, refl, sym, ◌∙◌, inl, inr, Option, none, some, List, [], ◌∷◌, String, ◌==◌, arith,
  length, length-append, ltb, ltb→lt, Bool-cases,
}
use sai_aurosy.Dict
use sai_aurosy.Events.{Event, Broadcaster, channel_capacity, offer, broadcast}

abbrev pub IsBounded : Broadcaster → Type 0
IsBounded b =
    (name : String) (held : List Event)
    → Dict.get b name ≡ some held
    → length held ≤ channel_capacity

offer-bounded : (e : Event) (held : List Event) → length held ≤ 32 → length (offer e held) ≤ 32
unfolding offer
offer-bounded e held h = elim (Bool-cases (ltb (length held) 32)) [
  | inl l ↦ simp l (omega (arith, length-append {0} held (e ∷ []), ltb→lt (length held) 32 l))
  | inr l ↦ simp l h
]

-- What a broadcast leaves in the channel of a subscriber.
pub offered : Event → Option (List Event) → Option (List Event)
offered e none = none
offered e (some held) = some (offer e held)

pub get-broadcast :
    (e : Event) (b : Broadcaster) (name : String)
    → Dict.get (broadcast e b) name ≡ offered e (Dict.get b name)
unfolding broadcast Dict.get offered
get-broadcast e [] name = refl
get-broadcast e ((n, held) ∷ rest) name = elim (Bool-cases (n == name)) [
  | inl q ↦ simp q refl
  | inr q ↦ simp q (get-broadcast e rest name)
]

pub broadcast-IsBounded : (e : Event) (b : Broadcaster) → IsBounded b → IsBounded (broadcast e b)
unfolding offered
broadcast-IsBounded e b h name held g =
    bounded (Dict.get b name) refl (sym (get-broadcast e b name) ∙ g)
  where
    bounded :
        (o : Option (List Event)) → Dict.get b name ≡ o → offered e o ≡ some held → length held ≤ 32
    bounded none q k = cc
    bounded (some old) q k = ground (arith, offer-bounded e old (h name old q))
