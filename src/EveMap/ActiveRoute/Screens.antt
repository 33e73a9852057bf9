-- ===== src/EveMap/ActiveRoute/Screens.antt =====
-- What a listener was told last, and what the map of the routes holds.
use eveai.Base.{
  ℕ, ◌≡◌, refl, Bool, true, false, not, ◌&&◌, Option, none, some, List, [], ◌∷◌, ◌++◌, arith, ltb,
  ◌==◌, if◌then◌else◌, ℤ, int_eq, int_eq_iff, delete_where, put_by, contains, erase, length,
  Bool-cases, inl, inr, ap, &&-eq-true,
}
use eveai.EveMap.ActiveRoute.{
  ActiveRoute, PlannedRoute, Entry, Notice, Routes, Event, subscribes, unsubscribes, plans, sweeps,
  clears, in_lane, lookup, notify, publish, entry_of, remember_route, expire_entries,
  expire_stale_routes, clear_active_route, is_stale, step, run,
}

not-eq-true : (b : Bool) → not b ≡ true → b ≡ false
not-eq-true b h = ground arith

pub same_lane : (x y z : ℤ) → int_eq x y ≡ true → int_eq x z ≡ int_eq y z
same_lane x y z h = ap (λ v. int_eq v z) ((int_eq_iff x y).0 h)

pub other_lane : (x y z : ℤ) → int_eq x y ≡ false → int_eq y z ≡ true → int_eq x z ≡ false
other_lane x y z h e = rw ((int_eq_iff y z).0 e) at h

contains-append : (k l : ℕ) (ks : List ℕ) → contains k ks ≡ true → contains k (ks ++ l ∷ []) ≡ true
contains-append k l [] h = cc
contains-append k l (x ∷ ks) h = ground (arith, contains-append k l ks)

contains-erase :
    (k l : ℕ) (ks : List ℕ)
    → (k == l) ≡ false
    → contains k ks ≡ true
    → contains k (erase l ks) ≡ true
contains-erase k l [] d h = cc
contains-erase k l (x ∷ ks) d h = ground (arith, contains-erase k l ks)

module _ {W : Type 0} where
  -- The route that a listener shows for a lane.
  unfoldable pub shown : ℕ → ℤ → List (Notice W) → Option (ActiveRoute W)
  shown k chat_id [] = none
  shown k chat_id (n ∷ ns) =
      if n.listener == k && int_eq n.chat_id chat_id then n.route else shown k chat_id ns

  shown-notify :
      (k : ℕ) (chat_id lane : ℤ) (route : Option (ActiveRoute W)) (ks : List ℕ)
      (ns : List (Notice W))
      → shown k chat_id (notify ks lane route ns)
        ≡ (if contains k ks && int_eq lane chat_id then route else shown k chat_id ns)
  unfolding shown notify
  shown-notify k chat_id lane route [] ns = refl
  shown-notify k chat_id lane route (x ∷ ks) ns = ground (
    arith,
    shown-notify k chat_id lane route ks
        (record { listener = x; chat_id = lane; route = route } ∷ ns),
  )

  pub lookup-delete :
      (chat_id lane : ℤ) (es : List (Entry W))
      → lookup chat_id (delete_where (in_lane lane) es)
        ≡ (if int_eq lane chat_id then none else lookup chat_id es)
  unfolding lookup delete_where
  lookup-delete chat_id lane [] = ground arith
  lookup-delete chat_id lane (e ∷ es) = elim (Bool-cases (int_eq e.chat_id lane)) [
    | inl hit ↦
        let same = same_lane e.chat_id lane chat_id hit in
        ground (arith, lookup-delete chat_id lane es)
    | inr miss ↦
        let other = other_lane e.chat_id lane chat_id miss in
        ground (arith, lookup-delete chat_id lane es)
  ]

  pub lookup-put :
      (chat_id : ℤ) (x : Entry W) (es : List (Entry W))
      → lookup chat_id (put_by (in_lane x.chat_id) x es)
        ≡ (if int_eq x.chat_id chat_id then some x.route else lookup chat_id es)
  unfolding lookup put_by
  lookup-put chat_id x [] = refl
  lookup-put chat_id x (e ∷ es) = elim (Bool-cases (int_eq e.chat_id x.chat_id)) [
    | inl hit ↦
        let same = same_lane e.chat_id x.chat_id chat_id hit in
        ground (arith, lookup-put chat_id x es)
    | inr miss ↦
        let other = other_lane e.chat_id x.chat_id chat_id miss in
        ground (arith, lookup-put chat_id x es)
  ]

  -- The listener listens, and shows for each lane the route that the map holds.
  pub record IsShown (k : ℕ) (s : Routes W) : Type 0 where
    pub listens : contains k s.listeners ≡ true
    pub shows : (chat_id : ℤ) → shown k chat_id s.notices ≡ lookup chat_id s.active_routes

  -- A change of one lane that is published keeps what is shown.
  change-IsShown :
      (k : ℕ) (s : Routes W) (lane : ℤ) (route : Option (ActiveRoute W)) (es : List (Entry W))
      → IsShown k s
      → ((chat_id : ℤ)
          → lookup chat_id es
            ≡ (if int_eq lane chat_id then route else lookup chat_id s.active_routes))
      → IsShown k (publish (record s { active_routes = es }) lane route)
  unfolding publish
  change-IsShown k s lane route es h e = record {
    listens = h.listens;
    shows = λ chat_id.
        rw
          (
            shown-notify k chat_id lane route s.listeners s.notices,
            e chat_id,
            h.listens,
            h.shows chat_id,
          )
          refl;
  }

  remember_route-IsShown :
      (k : ℕ) (s : Routes W) (lane : ℤ) (r : PlannedRoute W) (now : ℕ)
      → IsShown k s
      → IsShown k (remember_route s lane r now)
  unfolding remember_route
  remember_route-IsShown k s lane r now h = elim (Bool-cases (ltb (length r.system_ids) 2)) [
    | inl e ↦
        rw e
          (change-IsShown k s lane none _ h (λ chat_id. lookup-delete chat_id lane s.active_routes))
    | inr e ↦
        let x = entry_of lane r now in
        rw e (
          change-IsShown k s lane (some x.route) _ h
            (λ chat_id. lookup-put chat_id x s.active_routes))
  ]

  expire_entries-IsShown :
      (k now : ℕ) (es : List (Entry W)) (s : Routes W)
      → IsShown k s
      → IsShown k (expire_entries now es s).1
  unfolding expire_entries
  expire_entries-IsShown k now [] s h = h
  expire_entries-IsShown k now (e ∷ es) s h = elim (Bool-cases (is_stale now e.route)) [
    | inl stale ↦ rw stale (
        expire_entries-IsShown k now es _ (
          change-IsShown k s e.chat_id none _ h
            (λ chat_id. lookup-delete chat_id e.chat_id s.active_routes)))
    | inr fresh ↦ rw fresh (expire_entries-IsShown k now es s h)
  ]

  -- The event does not take the listener off.
  abbrev leaves : ℕ → Event W → Bool
  leaves k (unsubscribes l) = k == l
  leaves k _ = false

  -- Does no event take the listener off?
  unfoldable pub stays : ℕ → List (Event W) → Bool
  stays k [] = true
  stays k (e ∷ es) = not (leaves k e) && stays k es

  step-IsShown :
      (k : ℕ) (s : Routes W) (e : Event W) → leaves k e ≡ false → IsShown k s → IsShown k (step s e)
  unfolding step clear_active_route publish expire_stale_routes
  step-IsShown k s (subscribes l) d h = elim (Bool-cases (contains l s.listeners)) [
    | inl there ↦ rw there h
    | inr new ↦
        rw new (record { listens = contains-append k l s.listeners h.listens; shows = h.shows })
  ]
  step-IsShown k s (unsubscribes l) d h = record {
    listens = contains-erase k l s.listeners d h.listens;
    shows = h.shows;
  }
  step-IsShown k s (plans lane r now) d h = remember_route-IsShown k s lane r now h
  step-IsShown k s (sweeps now) d h = expire_entries-IsShown k now s.active_routes s h
  step-IsShown k s (clears lane) d h =
      change-IsShown k s lane none _ h (λ chat_id. lookup-delete chat_id lane s.active_routes)

  -- While a listener stays, what it was told last of each lane is what the map of the routes
  -- holds, after any calls and sweeps, if that is so at the start.
  pub run-IsShown :
      (k : ℕ) (s : Routes W) (es : List (Event W))
      → stays k es ≡ true
      → IsShown k s
      → IsShown k (run s es)
  unfolding run stays
  run-IsShown k s [] st h = h
  run-IsShown k s (e ∷ es) st h =
      let both = &&-eq-true (not (leaves k e)) (stays k es) st in
      run-IsShown k (step s e) es both.1 (step-IsShown k s e (not-eq-true (leaves k e) both.0) h)
