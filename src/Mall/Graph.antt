-- ===== src/Mall/Graph.antt =====
-- internal/mall/navigation.go: the navigation graph and Dijkstra's algorithm. A distance is a
-- `float64`, of which the code uses what `Weight` lists. `heap.Pop` of container/heap removes an item
-- of least distance; among equal ones the model takes the last pushed. The two loops of the code have
-- no bound, so `search` and `trace` have fuel.
pub mod Order
pub mod Bounded
pub mod Invariant
pub mod Better
pub mod Relax
pub mod Popped
pub mod Turns
pub mod Route
pub mod Start
pub mod Shortest
pub mod Edges
pub mod Rows
use sai_aurosy.Prelude.{
  ℕ, zero, suc, ◌+◌, Bool, true, false, ◌||◌, not, Option, none, some, List, [], ◌∷◌, String, ◌==◌,
  length, contains, is_some, if◌then◌else◌,
}
use sai_aurosy.Dict
use sai_aurosy.Dict.{Dict}
use sai_aurosy.Mall.{NavNode, NavEdge}

pub record Weight (W : Type 0) : Type 0 where
  pub less : W → W → Bool
  pub plus : W → W → W
  pub origin : W
  pub inf : W
  pub is_inf : W → Bool

abbrev pub Graph : Type 0 → Type 0
Graph W = Dict (Dict W)

pub record Item (W : Type 0) : Type 0 where
  pub id : String
  pub dist : W

-- The local variables of `ShortestPath`.
pub record Search (W : Type 0) : Type 0 where
  pub dist : Dict W
  pub prev : Dict String
  pub queue : List (Item W)
  pub seen : List String

pub data Result (W : Type 0) : Type 0 where
  found : List String → W → Result W
  path_not_found unfinished : Result W

module _ {W : Type 0} where
  -- A nil map is read as an empty one.
  unfoldable pub row_or_empty : Option (Dict W) → Dict W
  row_or_empty none = []
  row_or_empty (some row) = row

  -- `if adj[id] == nil { adj[id] = make(...) }; adj[id][to] = distance`
  unfoldable pub set_edge : String → String → W → Graph W → Graph W
  unfolding row_or_empty
  set_edge id to_id distance adj =
      Dict.put adj id (Dict.put (row_or_empty (Dict.get adj id)) to_id distance)

  unfoldable pub add_nodes : List (NavNode W) → Graph W → Graph W
  add_nodes [] adj = adj
  add_nodes (n ∷ ns) adj = add_nodes ns (Dict.put adj n.id [])

  unfoldable pub add_edge : NavEdge W → Graph W → Graph W
  unfolding set_edge
  add_edge e adj =
      let one_way = set_edge e.from_id e.to_id e.distance adj in
      if e.bidirectional then set_edge e.to_id e.from_id e.distance one_way else one_way

  unfoldable pub add_edges : List (NavEdge W) → Graph W → Graph W
  unfolding add_edge
  add_edges [] adj = adj
  add_edges (e ∷ es) adj = add_edges es (add_edge e adj)

  unfoldable pub new_graph : List (NavNode W) → List (NavEdge W) → Graph W
  unfolding add_nodes add_edges
  new_graph nodes edges = add_edges edges (add_nodes nodes [])

module _ {W : Type 0} (ops : Weight W) where
  -- A missing entry of a map is the zero value.
  unfoldable pub value_or_zero : Option W → W
  value_or_zero none = ops.origin
  value_or_zero (some d) = d

  unfoldable pub dist_of : Search W → String → W
  unfolding value_or_zero
  dist_of s v = value_or_zero (Dict.get s.dist v)

  -- `heap.Pop` on a queue that is not empty.
  unfoldable pub pop_min : Item W → List (Item W) → Item W × List (Item W)
  pop_min x [] = (x, [])
  pop_min x (y ∷ ys) =
      let (m, rest) = pop_min y ys in if ops.less m.dist x.dist then (m, x ∷ rest) else (x, y ∷ ys)

  unfoldable pub improve : String → String → W → Search W → Search W
  unfolding dist_of
  improve u v alt s =
      if ops.less alt (dist_of s v)
      then record s {
        dist = Dict.put s.dist v alt;
        prev = Dict.put s.prev v u;
        queue = record { id = v; dist = alt } ∷ s.queue;
      }
      else s

  unfoldable pub relax_edge : String → String → W → Search W → Search W
  unfolding improve dist_of
  relax_edge u v w s = if contains s.seen v then s else improve u v (ops.plus (dist_of s u) w) s

  -- The loop over `g.adj[u.id]`.
  unfoldable pub relax : String → Dict W → Search W → Search W
  unfolding relax_edge
  relax u [] s = s
  relax u ((v, w) ∷ row) s = relax u row (relax_edge u v w s)

  module _ (adj : Graph W) where
    unfoldable pub visit : String → Search W → Search W
    unfolding relax row_or_empty
    visit u s = relax u (row_or_empty (Dict.get adj u)) (record s { seen = u ∷ s.seen })

    -- What a popped item does when it is not the goal.
    unfoldable pub explore : String → Search W → Search W
    unfolding visit
    explore u s = if contains s.seen u then s else visit u s

    unfoldable pub after_pop :
        (Search W → Option (Search W))
        → String
        → Item W × List (Item W)
        → Search W
        → Option (Search W)
    unfolding explore
    after_pop next to_id (u, rest) s =
        let popped : Search W = record s { queue = rest } in
        let later = next (explore u.id popped) in if u.id == to_id then some popped else later

    unfoldable pub turn :
        (Search W → Option (Search W)) → String → List (Item W) → Search W → Option (Search W)
    unfolding pop_min after_pop
    turn next to_id [] s = some s
    turn next to_id (x ∷ xs) s = after_pop next to_id (pop_min x xs) s

    unfoldable pub search : ℕ → String → Search W → Option (Search W)
    unfolding turn
    search zero to_id s = none
    search (suc n) to_id s = turn (search n to_id) to_id s.queue s

    -- `for id := range g.adj { dist[id] = math.Inf(1) }`
    unfoldable pub all_infinite : Graph W → Dict W
    all_infinite [] = []
    all_infinite ((id, row) ∷ rest) = (id, ops.inf) ∷ all_infinite rest

    unfoldable pub start : String → Search W
    unfolding all_infinite
    start from_id = record {
      dist = Dict.put (all_infinite adj) from_id ops.origin;
      prev = [];
      queue = record { id = from_id; dist = ops.origin } ∷ [];
      seen = [];
    }

    unfoldable pub name_or_empty : Option String → String
    name_or_empty none = ""
    name_or_empty (some id) = id

    -- `for at := toID; at != ""; at = prev[at] { path = append([]string{at}, path...) }`
    unfoldable pub trace : ℕ → Dict String → String → List String → Option (List String)
    unfolding name_or_empty
    trace zero prev id path = none
    trace (suc n) prev id path =
        let rest = trace n prev (name_or_empty (Dict.get prev id)) (id ∷ path) in
        if id == "" then some path else rest

    unfoldable pub with_path : W → Option (List String) → Result W
    with_path d none = unfinished
    with_path d (some path) = found path d

    unfoldable pub after_search : String → Option (Search W) → Result W
    unfolding with_path dist_of trace
    after_search to_id none = unfinished
    after_search to_id (some s) =
        if ops.is_inf (dist_of s to_id)
        then path_not_found
        else with_path (dist_of s to_id) (trace (suc (suc (length s.seen))) s.prev to_id [])

    -- The number of entries of all rows.
    unfoldable pub edge_count : Graph W → ℕ
    edge_count [] = 0
    edge_count ((id, row) ∷ rest) = length row + edge_count rest

    unfoldable pub shortest_path : String → String → Result W
    shortest_path from_id to_id =
        if not (is_some (Dict.get adj from_id)) || not (is_some (Dict.get adj to_id))
        then path_not_found
        else if from_id == to_id
        then found (from_id ∷ []) ops.origin
        else after_search to_id (search (suc (suc (edge_count adj))) to_id (start from_id))
