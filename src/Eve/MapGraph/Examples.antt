-- ===== src/Eve/MapGraph/Examples.antt =====
-- Runs on a small map, and instances of the theorems of map-graph.ts.
use eveai.Base.{ℕ, ◌≡◌, refl, true, Option, none, some, [], ◌∷◌, get, has, put, remove}
use eveai.Eve.MapGraph.{load_graph, jump_distance, bubble_from}
use eveai.Eve.MapGraph.Distance.{IsDistance, jump_distance_lem}
use eveai.Eve.MapGraph.Nodes.{IsBubble, bubble_from-IsBubble}
use eveai.Eve.MapGraph.SmallMap.{numbers, small_map}
use eveai.Eve.MapGraph.Costs.{at_least_zero}
use eveai.Eve.MapGraph.Routes.{RouteOptions, RiskRoute, secure, route_with_risk}
use eveai.Eve.MapGraph.Routes.Answers.{IsRouted, route_with_risk_lem}

abbrev safely : RouteOptions (Option ℕ)
safely = record {
  mode = secure;
  risk_weight = some 2;
  avoid = 5 ∷ [];
  danger_of = λ id. at_least_zero (some 1);
  extra_edges = (2, 3) ∷ [];
}

jumps_one_to_three : jump_distance small_map 1 3 5 ≡ some 2
unfolding jump_distance has load_graph put get
jumps_one_to_three = refl

route_one_to_three :
    route_with_risk numbers small_map safely 1 3
    ≡ some (record {
      ok = true;
      mode = secure;
      risk_weight = some 2;
      system_ids = 1 ∷ 2 ∷ 3 ∷ [];
      hops =
          record { system_id = 1; cost = some 0; terms = [] }
          ∷ record {
            system_id = 2;
            cost = some 3;
            terms = ("jump", some 1) ∷ ("danger", some 2) ∷ [];
          }
          ∷ record {
            system_id = 3;
            cost = some 3;
            terms = ("jump", some 1) ∷ ("danger", some 2) ∷ [];
          }
          ∷ [];
      jumps = 2;
      total_cost = some 6;
      error = none;
    })
unfolding route_with_risk has load_graph put get remove
route_one_to_three = refl

jump_distance_lem_example : IsDistance small_map.adjacency 1 3 5 (jump_distance small_map 1 3 5)
unfolding has load_graph put
jump_distance_lem_example = jump_distance_lem small_map 1 3 5 refl refl

bubble_from-IsBubble_example : IsBubble small_map.adjacency 1 2 4 (bubble_from small_map 1 2 4)
unfolding has load_graph put
bubble_from-IsBubble_example = bubble_from-IsBubble small_map 1 2 4 refl

route_with_risk_lem_example :
    (r : RiskRoute (Option ℕ)) × (route_with_risk numbers small_map safely 1 3 ≡ some r)
    × IsRouted numbers small_map safely 1 3 r
unfolding has load_graph put
route_with_risk_lem_example = route_with_risk_lem numbers small_map safely 1 3 refl refl refl
