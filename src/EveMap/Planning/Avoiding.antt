-- ===== src/EveMap/Planning/Avoiding.antt =====
-- The avoid list, the search and the map together: which route is planned and drawn.
use eveai.Base.{
  ℕ, ◌≡◌, refl, Bool, true, false, not, ◌&&◌, ◌||◌, some, List, [], ◌∷◌, ==_iff, arith, leb, ltb,
  if◌then◌else◌, Bool-cases, ◌⊎◌, inl, inr, ℤ, int_eq, length, contains, has, exists_where,
}
use eveai.Eve.MapGraph.{GraphCache}
use eveai.Eve.MapGraph.Costs.{Numbers}
use eveai.Eve.MapGraph.Routes.{RiskRoute}
use eveai.Eve.MapGraph.Routes.Answers.{IsRouted, IsRouted-allowed, route_with_risk_lem}
use eveai.EveMap.ActiveRoute.{Routes, entry_of, unless_stale, get_active_route}
use eveai.EveMap.ActiveRoute.Readers.{get_active_route-remember_route}
use eveai.EveMap.Avoid.{AvoidRow, is_row, effective_avoid_set}
use eveai.EveMap.Avoid.Sets.{contains-effective_avoid_set}
use eveai.EveMap.Planning.{RouteRequest, effective_avoid, options_of, planned_of, draw, plan_on_map}

module _ {C : Type 0} (n : Numbers C) (g : GraphCache) (rows : List AvoidRow)
    (q : RouteRequest C) where
  -- A route is drawn if there is one with a jump.
  abbrev pub is_drawn : RiskRoute C → Bool
  is_drawn r = r.ok && leb 2 (length r.system_ids)

  -- What planning leaves: a best route, past all that the pilot avoids but its ends, and a map that
  -- shows it in the lane, or what it showed.
  pub record IsPlanned (now : ℕ) (s : Routes C) (r : RiskRoute C) (s' : Routes C) : Type 0 where
    pub best : IsRouted n g (options_of n g rows q) q.origin q.destination r
    pub avoiding :
        (id : ℕ)
        → contains id r.system_ids ≡ true
        → (exists_where (is_row q.user_id id) rows || contains id q.avoid) ≡ true
        → (id ≡ q.origin) ⊎ (id ≡ q.destination)
    pub shown :
        (chat_id : ℤ) (later : ℕ)
        → get_active_route s' chat_id later ≡ (
            if is_drawn r && int_eq q.chat_id chat_id
            then unless_stale later (some (entry_of q.chat_id (planned_of n g rows q r) now).route)
            else get_active_route s chat_id later)

  abbrev avoided : ℕ → Bool
  unfolding effective_avoid_set
  avoided id = contains id (effective_avoid n g rows q)

  avoided_lem :
      (id : ℕ)
      → avoided id ≡ (
          (exists_where (is_row q.user_id id) rows || contains id q.avoid)
          && not (contains id (q.origin ∷ q.destination ∷ [])))
  unfolding avoided effective_avoid
  avoided_lem id =
      contains-effective_avoid_set rows q.user_id q.avoid (q.origin ∷ q.destination ∷ []) id

  destination_free : avoided q.destination ≡ false
  destination_free =
      ground (arith, avoided_lem q.destination, (==_iff q.destination q.destination).1 refl)

  kept_end :
      (id : ℕ)
      → (exists_where (is_row q.user_id id) rows || contains id q.avoid) ≡ true
      → avoided id ≡ false
      → (id ≡ q.origin) ⊎ (id ≡ q.destination)
  kept_end id h free = ground (arith, avoided_lem id, ==_iff q.origin id, ==_iff q.destination id)

  avoiding_lem :
      (r : RiskRoute C)
      → IsRouted n g (options_of n g rows q) q.origin q.destination r
      → (id : ℕ) → contains id r.system_ids ≡ true
      → (exists_where (is_row q.user_id id) rows || contains id q.avoid) ≡ true
      → (id ≡ q.origin) ⊎ (id ≡ q.destination)
  unfolding options_of avoided
  avoiding_lem r best id h unwanted =
      elim (IsRouted-allowed n g (options_of n g rows q) q.origin q.destination r id best h) [
        | inl at_origin ↦ inl at_origin
        | inr free ↦ kept_end id unwanted free
      ]

  shown_lem :
      (now : ℕ) (s : Routes C) (r : RiskRoute C) (chat_id : ℤ) (later : ℕ)
      → get_active_route (draw n g rows q now s r) chat_id later ≡ (
          if is_drawn r && int_eq q.chat_id chat_id
          then unless_stale later (some (entry_of q.chat_id (planned_of n g rows q r) now).route)
          else get_active_route s chat_id later)
  unfolding draw
  shown_lem now s r chat_id later = elim (Bool-cases (is_drawn r)) [
    | inl e ↦
        let long : ltb (length r.system_ids) 2 ≡ false = ground arith in
        rw
          (
            e,
            get_active_route-remember_route s q.chat_id chat_id (planned_of n g rows q r) now later,
            long,
          )
          refl
    | inr e ↦ rw e refl
  ]

  -- Over numbers with the laws of Costs, with both ends on the map, a route is planned: a best one by the effective avoid list, past all
  -- systems that are stored for the user or named by the request, except its ends. If there is one
  -- with a jump, the map shows it in the lane until it is stale; else the map shows what it showed.
  pub plan_on_map_lem :
      (now : ℕ) (s : Routes C)
      → has q.origin g.systems ≡ true
      → has q.destination g.systems ≡ true
      → (r : RiskRoute C) × (s' : Routes C) × (plan_on_map n g rows q now s ≡ some (r, s'))
        × IsPlanned now s r s'
  unfolding plan_on_map avoided options_of
  plan_on_map_lem now s h k =
      let (r, found, best) =
        route_with_risk_lem n g (options_of n g rows q) q.origin q.destination h k
          destination_free in
      (
        r,
        draw n g rows q now s r,
        rw found refl,
        record { best = best; avoiding = avoiding_lem r best; shown = shown_lem now s r },
      )
