-- ===== src/EveMap/ActiveRoute/Readers.antt =====
-- What a reader sees of the routes: `getActiveRoute` and `routeAheadOf`.
use eveai.Base.{
  ℕ, ◌≡◌, refl, Bool, true, false, Option, none, some, List, [], ◌∷◌, ◌++◌, ltb, ◌==◌,
  if◌then◌else◌, ℤ, int_eq, contains, length, Bool-cases, inl, inr, ap, ==_iff,
}
use eveai.EveMap.ActiveRoute.{
  ActiveRoute, PlannedRoute, Routes, lookup, publish, entry_of, remember_route, unless_stale,
  get_active_route, after_system, route_ahead_of,
}
use eveai.EveMap.ActiveRoute.Screens.{lookup-delete, lookup-put}

after_system_lem :
    (id : ℕ) (xs : List ℕ)
    → contains id xs ≡ true
    → (before : List ℕ) × (xs ≡ before ++ id ∷ after_system id xs) × (contains id before ≡ false)
unfolding after_system
after_system_lem id [] h = cc
after_system_lem id (x ∷ xs) h = elim (Bool-cases (x == id)) [
  | inl hit ↦ ([], rw hit (ap {B = List ℕ} (λ v. v ∷ xs) ((==_iff x id).0 hit)), refl)
  | inr miss ↦
      let rest : contains id xs ≡ true = rw miss at h in
      let (before, cut, fresh) = after_system_lem id xs rest in
      (x ∷ before, rw miss (ap {B = List ℕ} (λ v. x ∷ v) cut), rw miss fresh)
]

module _ {W : Type 0} where
  -- While a route is seen and leads through the pilot's system, the route ahead is what follows
  -- the first visit of that system.
  pub route_ahead_of_lem :
      (s : Routes W) (chat_id : ℤ) (current now : ℕ) (r : ActiveRoute W)
      → get_active_route s chat_id now ≡ some r
      → contains current r.system_ids ≡ true
      → (before : List ℕ) × (r.system_ids
          ≡ before ++ current ∷ route_ahead_of s chat_id current now)
        × (contains current before ≡ false)
  unfolding route_ahead_of
  route_ahead_of_lem s chat_id current now r seen h =
      rw (route_ahead_of, seen) (after_system_lem current r.system_ids h)

  unless_stale-if :
      (later : ℕ) (b : Bool) (x y : Option (ActiveRoute W))
      → unless_stale later (if b then x else y)
        ≡ (if b then unless_stale later x else unless_stale later y)
  unless_stale-if later true x y = refl
  unless_stale-if later false x y = refl

  -- The call of `rememberRoute` leaves a reader of its lane the new route until that is stale, or
  -- none if the route has fewer than two systems. A reader of another lane sees what it saw.
  pub get_active_route-remember_route :
      (s : Routes W) (lane chat_id : ℤ) (r : PlannedRoute W) (now later : ℕ)
      → get_active_route (remember_route s lane r now) chat_id later ≡ (
          if int_eq lane chat_id
          then if ltb (length r.system_ids) 2
            then none
            else unless_stale later (some (entry_of lane r now).route)
          else get_active_route s chat_id later)
  unfolding get_active_route remember_route publish
  get_active_route-remember_route s lane chat_id r now later =
      elim (Bool-cases (ltb (length r.system_ids) 2)) [
        | inl short ↦
            rw (short, lookup-delete chat_id lane s.active_routes)
              (unless_stale-if later (int_eq lane chat_id) none (lookup chat_id s.active_routes))
        | inr long ↦
            rw (long, lookup-put chat_id (entry_of lane r now) s.active_routes)
              (unless_stale-if later (int_eq lane chat_id) (some (entry_of lane r now).route)
                (lookup chat_id s.active_routes))
      ]
