-- ===== src/EveMap/ActiveRoute/Examples.antt =====
-- Runs of the routes, and instances of their theorems.
use eveai.Base.{
  ℕ, ◌≡◌, refl, false, some, List, [], ◌∷◌, ◌++◌, ℤ, pos, contains, count_where, exists_where,
}
use eveai.EveMap.ActiveRoute.{
  PlannedRoute, Routes, Event, subscribes, plans, sweeps, lookup, expire_stale_routes,
  get_active_route, remember_route, route_ahead_of, run, entry_of,
}
use eveai.EveMap.ActiveRoute.Screens.{IsShown, stays, shown, run-IsShown}
use eveai.EveMap.ActiveRoute.Expiry.{expire_stale_routes_lem}
use eveai.EveMap.ActiveRoute.Readers.{route_ahead_of_lem, get_active_route-remember_route}

abbrev to_jita : PlannedRoute ℕ
to_jita = record { system_ids = 30 ∷ 31 ∷ 32 ∷ []; mode = "safest"; risk_weight = 1 }

-- One listener and one route.
abbrev flying : Routes ℕ
flying = record {
  active_routes = entry_of (pos 5) to_jita 1000 ∷ [];
  listeners = 1 ∷ [];
  notices = [];
}

abbrev listening : Routes ℕ
listening = record { active_routes = []; listeners = 1 ∷ []; notices = [] }

abbrev evening : List (Event ℕ)
evening = plans (pos 5) to_jita 1000 ∷ subscribes 2 ∷ sweeps 7201001 ∷ []

listening-IsShown : IsShown 1 listening
unfolding shown lookup
listening-IsShown = record { listens = refl; shows = λ chat_id. refl }

run-IsShown_example : IsShown 1 (run listening evening)
unfolding stays
run-IsShown_example = run-IsShown 1 listening evening refl listening-IsShown

expire_stale_routes_lem_example :
    ((expire_stale_routes 7201001 flying).0 ≡ 1)
    × ((chat_id : ℤ)
        → lookup chat_id (expire_stale_routes 7201001 flying).1.active_routes
          ≡ get_active_route flying chat_id 7201001)
unfolding count_where exists_where
expire_stale_routes_lem_example = expire_stale_routes_lem 7201001 flying (refl, tt)

route_ahead_of_lem_example :
    (before : List ℕ) × (30 ∷ 31 ∷ 32 ∷ [] ≡ before ++ 31 ∷ route_ahead_of flying (pos 5) 31 2000)
    × (contains 31 before ≡ false)
unfolding get_active_route lookup
route_ahead_of_lem_example =
    route_ahead_of_lem flying (pos 5) 31 2000 (entry_of (pos 5) to_jita 1000).route refl refl

get_active_route-remember_route_example :
    get_active_route (remember_route listening (pos 5) to_jita 1000) (pos 5) 2000
    ≡ some (entry_of (pos 5) to_jita 1000).route
get_active_route-remember_route_example =
    get_active_route-remember_route listening (pos 5) (pos 5) to_jita 1000 2000
