-- ===== src/EveMap/ActiveRoute.antt =====
-- src/eve-map/active-route.ts: the route of each chat lane, and the listeners of an open map.
-- `activeRoutes` is the list of its entries in the order of insertion, the listeners are numbered,
-- and `notices` holds the calls of listeners, the newest first. What a listener throws is caught,
-- so a call has no result. A listener that calls back into this code is not modelled. Times are
-- milliseconds, and `W` is the type of the risk weight, which is only passed on.
pub mod Screens
pub mod Expiry
pub mod Readers
pub mod Examples
use eveai.Base.{
  ℕ, suc, ◌+◌, ◌-◌, ◌*◌, String, Bool, true, false, Option, none, some, List, [], ◌∷◌, ◌++◌, ltb,
  leb, ◌==◌, if◌then◌else◌, ℤ, int_eq, delete_where, put_by, length, contains, erase,
}

pub record ActiveRoute (W : Type 0) : Type 0 where
  pub system_ids : List ℕ
  pub mode : String
  pub risk_weight : W
  pub jumps : ℕ
  pub set_at_ms : ℕ

-- The argument of `rememberRoute`.
pub record PlannedRoute (W : Type 0) : Type 0 where
  pub system_ids : List ℕ
  pub mode : String
  pub risk_weight : W

abbrev pub active_route_ttl_ms : ℕ
active_route_ttl_ms = 2 * 60 * 60000

pub record Entry (W : Type 0) : Type 0 where
  pub chat_id : ℤ
  pub route : ActiveRoute W

-- A call of a listener.
pub record Notice (W : Type 0) : Type 0 where
  pub listener : ℕ
  pub chat_id : ℤ
  pub route : Option (ActiveRoute W)

pub record Routes (W : Type 0) : Type 0 where
  pub active_routes : List (Entry W)
  pub listeners : List ℕ
  pub notices : List (Notice W)

-- `systemIds.slice(systemIds.indexOf(id) + 1)`, and nothing for an id that is not there.
unfoldable pub after_system : ℕ → List ℕ → List ℕ
after_system id [] = []
after_system id (x ∷ xs) = if x == id then xs else after_system id xs

module _ {W : Type 0} where
  abbrev pub in_lane : ℤ → Entry W → Bool
  in_lane chat_id e = int_eq e.chat_id chat_id

  -- `activeRoutes.get`
  unfoldable pub lookup : ℤ → List (Entry W) → Option (ActiveRoute W)
  lookup chat_id [] = none
  lookup chat_id (e ∷ es) = if in_lane chat_id e then some e.route else lookup chat_id es

  -- `listeners.add` and `listeners.delete`, on a set.
  abbrev pub on_active_route_change : Routes W → ℕ → Routes W
  on_active_route_change s k =
      if contains k s.listeners then s else record s { listeners = s.listeners ++ k ∷ [] }

  abbrev pub unsubscribe : Routes W → ℕ → Routes W
  unsubscribe s k = record s { listeners = erase k s.listeners }

  unfoldable pub notify : List ℕ → ℤ → Option (ActiveRoute W) → List (Notice W) → List (Notice W)
  notify [] chat_id route ns = ns
  notify (k ∷ ks) chat_id route ns =
      notify ks chat_id route (record { listener = k; chat_id = chat_id; route = route } ∷ ns)

  unfoldable pub publish : Routes W → ℤ → Option (ActiveRoute W) → Routes W
  unfolding notify
  publish s chat_id route = record s { notices = notify s.listeners chat_id route s.notices }

  -- The new entry of `rememberRoute`.
  abbrev pub entry_of : ℤ → PlannedRoute W → ℕ → Entry W
  entry_of chat_id r now = record {
    chat_id = chat_id;
    route = record {
      system_ids = r.system_ids;
      mode = r.mode;
      risk_weight = r.risk_weight;
      jumps = length r.system_ids - 1;
      set_at_ms = now;
    };
  }

  abbrev pub delete_route : Routes W → ℤ → Routes W
  delete_route s chat_id = record s {
    active_routes = delete_where (in_lane chat_id) s.active_routes;
  }

  abbrev pub set_route : Routes W → Entry W → Routes W
  set_route s e = record s { active_routes = put_by (in_lane e.chat_id) e s.active_routes }

  unfoldable pub remember_route : Routes W → ℤ → PlannedRoute W → ℕ → Routes W
  unfolding publish
  remember_route s chat_id r now =
      if ltb (length r.system_ids) 2
      then publish (delete_route s chat_id) chat_id none
      else let e = entry_of chat_id r now in publish (set_route s e) chat_id (some e.route)

  -- `now - entry.setAtMs > ACTIVE_ROUTE_TTL_MS`
  abbrev pub is_stale : ℕ → ActiveRoute W → Bool
  is_stale now r = ltb (r.set_at_ms + active_route_ttl_ms) now

  abbrev pub unless_stale : ℕ → Option (ActiveRoute W) → Option (ActiveRoute W)
  unless_stale now none = none
  unless_stale now (some r) = if is_stale now r then none else some r

  unfoldable pub get_active_route : Routes W → ℤ → ℕ → Option (ActiveRoute W)
  unfolding lookup
  get_active_route s chat_id now = unless_stale now (lookup chat_id s.active_routes)

  -- The `for` over the entries that stand in the map when the loop starts.
  unfoldable pub expire_entries : ℕ → List (Entry W) → Routes W → ℕ × Routes W
  unfolding publish
  expire_entries now [] s = (0, s)
  expire_entries now (e ∷ es) s =
      let kept = expire_entries now es s in
      let (expired, s') =
        expire_entries now es (publish (delete_route s e.chat_id) e.chat_id none) in
      if is_stale now e.route then (suc expired, s') else kept

  unfoldable pub expire_stale_routes : ℕ → Routes W → ℕ × Routes W
  unfolding expire_entries
  expire_stale_routes now s = expire_entries now s.active_routes s

  abbrev pub ahead_on : ℕ → Option (ActiveRoute W) → List ℕ
  unfolding after_system
  ahead_on id none = []
  ahead_on id (some r) = after_system id r.system_ids

  unfoldable pub route_ahead_of : Routes W → ℤ → ℕ → ℕ → List ℕ
  unfolding get_active_route after_system
  route_ahead_of s chat_id current_system_id now =
      ahead_on current_system_id (get_active_route s chat_id now)

  unfoldable pub clear_active_route : Routes W → ℤ → Routes W
  unfolding publish
  clear_active_route s chat_id = delete_route (publish s chat_id none) chat_id

pub data Event (W : Type 0) : Type 0 where
  subscribes : (listener : ℕ) → Event W
  unsubscribes : (listener : ℕ) → Event W
  plans : (chat_id : ℤ) (r : PlannedRoute W) (now : ℕ) → Event W
  sweeps : (now : ℕ) → Event W
  clears : (chat_id : ℤ) → Event W

module _ {W : Type 0} where
  unfoldable pub step : Routes W → Event W → Routes W
  unfolding remember_route expire_stale_routes clear_active_route
  step s (subscribes k) = on_active_route_change s k
  step s (unsubscribes k) = unsubscribe s k
  step s (plans chat_id r now) = remember_route s chat_id r now
  step s (sweeps now) = (expire_stale_routes now s).1
  step s (clears chat_id) = clear_active_route s chat_id

  unfoldable pub run : Routes W → List (Event W) → Routes W
  unfolding step
  run s [] = s
  run s (e ∷ es) = run (step s e) es
