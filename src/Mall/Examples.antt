-- ===== src/Mall/Examples.antt =====
-- A mall of three nodes, where the way round is shorter. Distances are numbers with an infinite one.
use sai_aurosy.Prelude.{
  ℕ, ◌+◌, ◌≡◌, refl, Bool, true, false, Option, none, some, [], ◌∷◌, String, arith, ltb,
}
use sai_aurosy.Dict
use sai_aurosy.Mall.{NavNode, NavEdge, MallMap}
use sai_aurosy.Mall.Graph.{
  Weight, found, row_or_empty, set_edge, add_nodes, add_edge, add_edges, new_graph, dist_of,
  value_or_zero, pop_min, improve, relax_edge, relax, visit, explore, after_pop, turn, search,
  all_infinite, start, name_or_empty, trace, with_path, after_search, edge_count, shortest_path,
}
use sai_aurosy.Mall.Graph.Order.{IsOrdered}
use sai_aurosy.Mall.Graph.Shortest.{Answers, shortest_path-Answers}
use sai_aurosy.Mall.Routes.{calculate_route, ok}
use sai_aurosy.Mall.Routes.Planned.{IsMap, new_graph-IsGraph, Planned, calculate_route-Planned}

abbrev less : Option ℕ → Option ℕ → Bool
less none b = false
less (some a) none = true
less (some a) (some b) = ltb a b

abbrev plus : Option ℕ → Option ℕ → Option ℕ
plus none b = none
plus (some a) none = none
plus (some a) (some b) = some (a + b)

abbrev is_none : Option ℕ → Bool
is_none none = true
is_none (some a) = false

abbrev ops : Weight (Option ℕ)
ops = record { less = less; plus = plus; origin = some 0; inf = none; is_inf = is_none }

asymmetric : (a b : Option ℕ) → less a b ≡ true → less b a ≡ false
asymmetric a b h = ground arith

transitive : (a b c : Option ℕ) → less b a ≡ false → less c b ≡ false → less c a ≡ false
transitive a b c h k = ground arith

monotone : (a b w : Option ℕ) → less b a ≡ false → less (plus b w) (plus a w) ≡ false
monotone a b w h = ground arith

grows : (a w : Option ℕ) → less w (some 0) ≡ false → less (plus a w) a ≡ false
grows a w h = ground arith

ops-IsOrdered : IsOrdered ops
ops-IsOrdered = record {
  asymmetric = asymmetric;
  transitive = transitive;
  monotone = monotone;
  grows = grows;
  below_is_finite = λ a b h. ground arith;
  finite_below = λ a b h k. ground arith;
  inf_on_top = λ a b h. ground arith;
  inf_is_infinite = refl;
  origin_is_finite = refl;
}

abbrev node : String → NavNode (Option ℕ)
node id = record {
  id = id;
  name = id;
  floor_id = "1";
  zone = "A";
  coordinates = record { x = some 0; y = some 0 };
  kind = "junction";
}

abbrev edge : String → String → ℕ → NavEdge (Option ℕ)
edge a b d = record { from_id = a; to_id = b; distance = some d; bidirectional = true }

abbrev mall : MallMap (Option ℕ)
mall = record {
  id = "m";
  name = "Mall";
  floors = [];
  nodes = node "a" ∷ node "b" ∷ node "c" ∷ [];
  edges = edge "a" "b" 5 ∷ edge "a" "c" 1 ∷ edge "c" "b" 2 ∷ [];
  stores = [];
  base_point = "a";
}

mall-IsMap : IsMap ops ops-IsOrdered mall
mall-IsMap = record {
  nodes_named = (refl, (refl, (refl, tt)));
  edges_walkable = (
    record { from_named = refl; to_named = refl; not_negative = refl },
    (
      record { from_named = refl; to_named = refl; not_negative = refl },
      (record { from_named = refl; to_named = refl; not_negative = refl }, tt),
    ),
  );
}

shortest_path_run :
    shortest_path ops (new_graph mall.nodes mall.edges) "a" "b"
    ≡ found ("a" ∷ "c" ∷ "b" ∷ []) (some 3)
unfolding shortest_path new_graph add_nodes add_edges add_edge set_edge row_or_empty Dict.get
    Dict.put start all_infinite search turn after_pop pop_min explore visit relax relax_edge improve
    dist_of value_or_zero after_search with_path trace name_or_empty edge_count
shortest_path_run = refl

shortest_path-Answers_example :
    Answers ops
      (new_graph mall.nodes mall.edges)
      "a"
      ops-IsOrdered
      (new_graph-IsGraph ops ops-IsOrdered mall mall-IsMap)
      "b"
      (shortest_path ops (new_graph mall.nodes mall.edges) "a" "b")
shortest_path-Answers_example =
    shortest_path-Answers ops (new_graph mall.nodes mall.edges) "a" ops-IsOrdered
      (new_graph-IsGraph ops ops-IsOrdered mall mall-IsMap) "b"

calculate_route-Planned_example :
    Planned ops ops-IsOrdered mall mall-IsMap "a" "b" (calculate_route ops (ok mall) "a" "b")
calculate_route-Planned_example = calculate_route-Planned ops ops-IsOrdered mall mall-IsMap "a" "b"
