-- ===== src/Mall/Routes.antt =====
-- internal/mall: the repository of maps (repository.go), the route planner (routes.go) and the lookups
-- of the service (service.go). `Text` is what the code takes from the package strings.
pub mod Planned
pub mod Walks
use sai_aurosy.Prelude.{
  Bool, true, false, not, ◌||◌, Option, none, some, List, [], ◌∷◌, map, String, ◌==◌, is_some,
  if◌then◌else◌,
}
use sai_aurosy.Dict
use sai_aurosy.Dict.{Dict}
use sai_aurosy.Mall.{NavNode, NavEdge, StoreLocation, MallMap, Coordinates}
use sai_aurosy.Mall.Graph.{
  Weight, Graph, Result, found, path_not_found, unfinished, new_graph, shortest_path,
}

pub data Error : Type 0 where
  mall_not_found no_path store_not_found no_base_point : Error

-- A value or an error; `hangs` is a computation that ran out of fuel.
pub data Answer (A : Type 0) : Type 0 where
  ok : A → Answer A
  error : Error → Answer A
  hangs : Answer A

pub record Text : Type 0 where
  pub equal_fold : String → String → Bool
  pub to_lower : String → String
  pub trim_space : String → String
  pub includes : String → String → Bool

unfoldable pub similar : Text → String → String → Bool
similar text key store_name =
    text.includes (text.to_lower store_name) key || text.includes key (text.to_lower store_name)

module _ {W : Type 0} where
  unfoldable pub get_map : Dict (MallMap W) → String → Answer (MallMap W)
  get_map maps mall_id = elim (Dict.get maps mall_id) [
    | none ↦ error mall_not_found
    | some m ↦ ok m
  ]

  unfoldable pub list_stores : Answer (MallMap W) → Answer (List (StoreLocation W))
  list_stores (ok m) = ok m.stores
  list_stores (error e) = error e
  list_stores hangs = hangs

  -- `nodeByID`: a later node with the same identifier replaces an earlier one.
  unfoldable pub index_nodes : List (NavNode W) → Dict (NavNode W) → Dict (NavNode W)
  index_nodes [] d = d
  index_nodes (n ∷ ns) d = index_nodes ns (Dict.put d n.id n)

  abbrev pub node_by_id : MallMap W → Dict (NavNode W)
  node_by_id m = index_nodes m.nodes []

  unfoldable pub first_with_id : String → List (NavNode W) → Answer (NavNode W)
  first_with_id id [] = error no_path
  first_with_id id (n ∷ ns) = let rest = first_with_id id ns in if n.id == id then ok n else rest

  unfoldable pub base_of : MallMap W → Answer (NavNode W)
  unfolding first_with_id
  base_of m = if m.base_point == "" then error no_base_point else first_with_id m.base_point m.nodes

  unfoldable pub get_base_point : Answer (MallMap W) → Answer (NavNode W)
  unfolding base_of
  get_base_point (ok m) = base_of m
  get_base_point (error e) = error e
  get_base_point hangs = hangs

  module _ (text : Text) where
    unfoldable pub node_or_error : Option (NavNode W) → Answer (NavNode W)
    node_or_error none = error store_not_found
    node_or_error (some n) = ok n

    -- The second loop of `FindStoreNode`: a match without a node is passed over.
    unfoldable pub node_or : Option (NavNode W) → Answer (NavNode W) → Answer (NavNode W)
    node_or none rest = rest
    node_or (some n) rest = ok n

    unfoldable pub find_similar :
        String → Dict (NavNode W) → List (StoreLocation W) → Answer (NavNode W)
    unfolding node_or similar
    find_similar key nodes [] = error store_not_found
    find_similar key nodes (sl ∷ sls) =
        let rest = find_similar key nodes sls in
        if similar text key sl.store_name then node_or (Dict.get nodes sl.node_id) rest else rest

    unfoldable pub find_equal :
        String → Dict (NavNode W) → List (StoreLocation W) → Answer (NavNode W) → Answer (NavNode W)
    unfolding node_or_error
    find_equal name nodes [] otherwise = otherwise
    find_equal name nodes (sl ∷ sls) otherwise =
        let rest = find_equal name nodes sls otherwise in
        if text.equal_fold sl.store_name name
        then node_or_error (Dict.get nodes sl.node_id)
        else rest

    unfoldable pub find_store_node : Answer (MallMap W) → String → Answer (NavNode W)
    unfolding find_similar find_equal
    find_store_node (error e) store_name = error e
    find_store_node hangs store_name = hangs
    find_store_node (ok m) store_name =
        let key = text.to_lower (text.trim_space store_name) in
        find_equal store_name (node_by_id m) m.stores (find_similar key (node_by_id m) m.stores)

module _ {W : Type 0} (ops : Weight W) where
  unfoldable pub zero_node : NavNode W
  zero_node = record {
    id = "";
    name = "";
    floor_id = "";
    zone = "";
    coordinates = record { x = ops.origin; y = ops.origin };
    kind = "";
  }

  unfoldable pub node_or_zero : Option (NavNode W) → NavNode W
  unfolding zero_node
  node_or_zero none = zero_node
  node_or_zero (some n) = n

  unfoldable pub route_of : Dict (NavNode W) → Result W → Answer (List (NavNode W) × W)
  unfolding node_or_zero
  route_of nodes (found path d) = ok (map (λ id. node_or_zero (Dict.get nodes id)) path, d)
  route_of nodes path_not_found = error no_path
  route_of nodes unfinished = hangs

  unfoldable pub calculate_route :
      Answer (MallMap W) → String → String → Answer (List (NavNode W) × W)
  calculate_route (error e) from_id to_id = error e
  calculate_route hangs from_id to_id = hangs
  calculate_route (ok m) from_id to_id =
      if not (is_some (Dict.get (node_by_id m) from_id))
      then error no_path
      else if not (is_some (Dict.get (node_by_id m) to_id))
      then error no_path
      else route_of (node_by_id m) (shortest_path ops (new_graph m.nodes m.edges) from_id to_id)
