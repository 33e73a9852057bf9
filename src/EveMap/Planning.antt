-- ===== src/EveMap/Planning.antt =====
-- The handler of POST /api/web/map/route in src/web/map-routes.ts, from the read of the avoid list
-- to the route that the map shows. The danger scores and the links of the bubble, the mode and the
-- risk weight are arguments; the session and the parsing before and the autopilot behind are left
-- out. `mode_name` is the text of a mode. `none` stands for a search that runs out of fuel.
pub mod Avoiding
mod Examples
use eveai.Base.{
  ℕ, String, Bool, Option, none, some, List, [], ◌∷◌, ◌&&◌, leb, if◌then◌else◌, ℤ, length,
}
use eveai.Eve.MapGraph.{GraphCache}
use eveai.Eve.MapGraph.Costs.{Numbers, Reading}
use eveai.Eve.MapGraph.Routes.{
  RouteMode, shortest, secure, insecure, RouteOptions, RiskRoute, route_with_risk,
}
use eveai.EveMap.ActiveRoute.{PlannedRoute, Routes, remember_route}
use eveai.EveMap.Avoid.{AvoidRow, effective_avoid_set}

-- What the handler reads of the session, the body and the bubble.
pub record RouteRequest (C : Type 0) : Type 0 where
  pub user_id : ℕ
  pub chat_id : ℤ
  pub origin : ℕ
  pub destination : ℕ
  pub mode : RouteMode
  pub risk : C
  pub avoid : List ℕ
  pub use_wormholes : Bool
  pub danger_of : ℕ → Reading C
  pub wormholes : List (ℕ × ℕ)

abbrev pub mode_name : RouteMode → String
mode_name shortest = "shortest"
mode_name secure = "secure"
mode_name insecure = "insecure"

module _ {C : Type 0} (n : Numbers C) (g : GraphCache) (rows : List AvoidRow)
    (q : RouteRequest C) where
  abbrev pub effective_avoid : List ℕ
  unfolding effective_avoid_set
  effective_avoid = effective_avoid_set rows q.user_id q.avoid (q.origin ∷ q.destination ∷ [])

  abbrev pub options_of : RouteOptions C
  unfolding effective_avoid_set
  options_of = record {
    mode = q.mode;
    risk_weight = q.risk;
    avoid = effective_avoid;
    danger_of = q.danger_of;
    extra_edges = if q.use_wormholes then q.wormholes else [];
  }

  abbrev pub planned_of : RiskRoute C → PlannedRoute C
  planned_of r = record { system_ids = r.system_ids; mode = mode_name q.mode; risk_weight = q.risk }

  -- Only a route that exists replaces the one that is drawn.
  abbrev pub draw : ℕ → Routes C → RiskRoute C → Routes C
  unfolding remember_route
  draw now s r =
      if r.ok && leb 2 (length r.system_ids)
      then remember_route s q.chat_id (planned_of r) now
      else s

  abbrev drawn : ℕ → Routes C → Option (RiskRoute C) → Option (RiskRoute C × Routes C)
  unfolding remember_route
  drawn now s none = none
  drawn now s (some r) = some (r, draw now s r)

  unfoldable pub plan_on_map : ℕ → Routes C → Option (RiskRoute C × Routes C)
  unfolding effective_avoid_set remember_route route_with_risk
  plan_on_map now s = drawn now s (route_with_risk n g options_of q.origin q.destination)
