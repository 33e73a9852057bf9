-- ===== src/EveMap/Planning/Examples.antt =====
-- A route that is planned past the avoid list, and the theorem's instance.
use eveai.Base.{ℕ, ◌≡◌, refl, true, Option, none, some, List, [], ◌∷◌, pos, has, put}
use eveai.Eve.MapGraph.{load_graph}
use eveai.Eve.MapGraph.Costs.{at_least_zero}
use eveai.Eve.MapGraph.SmallMap.{numbers, small_map}
use eveai.Eve.MapGraph.Routes.{RiskRoute, shortest}
use eveai.EveMap.ActiveRoute.{Routes}
use eveai.EveMap.Avoid.{AvoidRow, row_of}
use eveai.EveMap.Planning.{RouteRequest, plan_on_map}
use eveai.EveMap.Planning.Avoiding.{IsPlanned, plan_on_map_lem}

abbrev to_three : RouteRequest (Option ℕ)
to_three = record {
  user_id = 5;
  chat_id = pos 8;
  origin = 1;
  destination = 3;
  mode = shortest;
  risk = some 0;
  avoid = 9 ∷ [];
  use_wormholes = true;
  danger_of = λ id. at_least_zero (some 0);
  wormholes = (2, 3) ∷ [];
}

-- The system between and the destination.
abbrev stored : List AvoidRow
stored = row_of 5 4 none 10 ∷ row_of 5 3 none 11 ∷ []

abbrev empty_map : Routes (Option ℕ)
empty_map = record { active_routes = []; listeners = []; notices = [] }

plan_on_map_lem_example :
    (r : RiskRoute (Option ℕ)) × (s' : Routes (Option ℕ)) × (plan_on_map numbers small_map stored
        to_three 100 empty_map
      ≡ some (r, s'))
    × IsPlanned numbers small_map stored to_three 100 empty_map r s'
unfolding has load_graph put
plan_on_map_lem_example = plan_on_map_lem numbers small_map stored to_three 100 empty_map refl refl
