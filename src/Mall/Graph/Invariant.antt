-- ===== src/Mall/Graph/Invariant.antt =====
-- What holds of the search between its turns.
use sai_aurosy.Prelude.{
  ◌≡◌, ◌⊎◌, true, false, none, some, List, [], ◌∷◌, Memᴰ, String, contains, is_some,
}
use sai_aurosy.Dict
use sai_aurosy.Dict.{Dict}
use sai_aurosy.Mall.Graph.{Weight, Graph, Item, Search, dist_of}
use sai_aurosy.Mall.Graph.Order.{Leq, Entry, IsNode}

module _ {W : Type 0} (ops : Weight W) (adj : Graph W) (from_id : String) where
  abbrev pub Seen : Search W → String → Type 0
  Seen s v = contains s.seen v ≡ true

  abbrev pub Unseen : Search W → String → Type 0
  Unseen s v = contains s.seen v ≡ false

  -- Each seen node was reached from the start or from a node that was seen before it.
  abbrev pub Ranked : Dict String → List String → Type 0
  Ranked prev [] = Unit
  Ranked prev (v ∷ seen) =
      ((Dict.get prev v ≡ none)
        ⊎ ((p : String) × (Dict.get prev v ≡ some p) × (contains seen p ≡ true)))
      × Ranked prev seen

  pub record Linked (s : Search W) (v p : String) : Type 0 where
    pub before : Seen s p
    pub weight : W
    pub entry : Entry ops adj p v weight
    pub total : dist_of ops s v ≡ ops.plus (dist_of ops s p) weight

  pub record Queued (s : Search W) (i : Item W) : Type 0 where
    pub node : IsNode ops adj i.id
    pub stale : Leq ops (dist_of ops s i.id) i.dist
    pub finite : ops.is_inf i.dist ≡ false

  pub record IsSearch (s : Search W) : Type 0 where
    pub keys : (v : String) → is_some (Dict.get s.dist v) ≡ is_some (Dict.get adj v)
    pub positive : (v : String) → Leq ops ops.origin (dist_of ops s v)
    pub at_start : dist_of ops s from_id ≡ ops.origin
    pub seen_node : (v : String) → Seen s v → IsNode ops adj v
    pub seen_finite : (v : String) → Seen s v → ops.is_inf (dist_of ops s v) ≡ false
    pub linked : (v p : String) → Dict.get s.prev v ≡ some p → Linked s v p
    pub rooted :
        (v : String)
        → Dict.get s.prev v ≡ none
        → IsNode ops adj v
        → ops.is_inf (dist_of ops s v) ≡ false
        → v ≡ from_id
    pub settled :
        (u v : String)
        → Seen s u
        → Unseen s v
        → IsNode ops adj v
        → Leq ops (dist_of ops s u) (dist_of ops s v)
    pub queued :
        (v : String)
        → Unseen s v
        → IsNode ops adj v
        → ops.is_inf (dist_of ops s v) ≡ false
        → Memᴰ (record { id = v; dist = dist_of ops s v }) s.queue
    pub items : (i : Item W) → Memᴰ i s.queue → Queued s i
    pub ranked : Ranked s.prev s.seen

  -- The edges of these nodes bring no shorter way.
  abbrev pub Closed : Search W → (String → Type 0) → Type 0
  Closed s P =
      (u v : String) (w : W)
      → P u
      → Entry ops adj u v w
      → IsNode ops adj v
      → Leq ops (dist_of ops s v) (ops.plus (dist_of ops s u) w)

  -- How a search may go on: distances only fall, and those of seen nodes stay.
  pub record Later (s t : Search W) : Type 0 where
    pub same_seen : t.seen ≡ s.seen
    pub smaller : (v : String) → Leq ops (dist_of ops t v) (dist_of ops s v)
    pub fixed : (v : String) → Seen s v → dist_of ops t v ≡ dist_of ops s v
