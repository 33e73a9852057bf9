-- ===== src/EveMap/ActiveRoute/Expiry.antt =====
-- Expiry: what a reader sees, and what the sweep removes.
use eveai.Base.{
  ℕ, ◌≡◌, refl, Bool, false, ◌&&◌, none, List, [], ◌∷◌, arith, if◌then◌else◌, ℤ, int_eq_iff,
  Bool-cases, inl, inr, exists_where, count_where,
}
use eveai.EveMap.ActiveRoute.{
  Entry, Routes, in_lane, lookup, publish, delete_route, expire_entries, expire_stale_routes,
  is_stale, unless_stale, get_active_route,
}
use eveai.EveMap.ActiveRoute.Screens.{lookup-delete}

module _ {W : Type 0} where
  -- A map has each key once.
  abbrev pub IsMap : List (Entry W) → Type 0
  IsMap [] = Unit
  IsMap (e ∷ es) = (exists_where (in_lane e.chat_id) es ≡ false) × IsMap es

  abbrev stale_in : ℕ → ℤ → Entry W → Bool
  stale_in now chat_id e = is_stale now e.route && in_lane chat_id e

  lookup-expire_entries :
      (now : ℕ) (chat_id : ℤ) (es : List (Entry W)) (s : Routes W)
      → lookup chat_id (expire_entries now es s).1.active_routes
        ≡ (if exists_where (stale_in now chat_id) es then none else lookup chat_id s.active_routes)
  unfolding expire_entries publish exists_where
  lookup-expire_entries now chat_id [] s = refl
  lookup-expire_entries now chat_id (e ∷ es) s = elim (Bool-cases (is_stale now e.route)) [
    | inl stale ↦
        let s' = publish (delete_route s e.chat_id) e.chat_id none in
        rw
          (
            stale,
            lookup-expire_entries now chat_id es s',
            lookup-delete chat_id e.chat_id s.active_routes,
          )
          (ground arith)
    | inr fresh ↦ rw (fresh, lookup-expire_entries now chat_id es s) refl
  ]

  count-expire_entries :
      (now : ℕ) (es : List (Entry W)) (s : Routes W)
      → (expire_entries now es s).0 ≡ count_where (λ e. is_stale now e.route) es
  unfolding expire_entries count_where
  count-expire_entries now [] s = refl
  count-expire_entries now (e ∷ es) s = elim (Bool-cases (is_stale now e.route)) [
    | inl stale ↦
        let s' = publish (delete_route s e.chat_id) e.chat_id none in
        rw stale (omega (arith, count-expire_entries now es s'))
    | inr fresh ↦ rw fresh (omega (arith, count-expire_entries now es s))
  ]

  absent :
      (now : ℕ) (chat_id : ℤ) (es : List (Entry W))
      → exists_where (in_lane chat_id) es ≡ false
      → exists_where (stale_in now chat_id) es ≡ false
  unfolding exists_where
  absent now chat_id [] h = refl
  absent now chat_id (e ∷ es) h = ground (arith, absent now chat_id es)

  -- In a map the one entry of a lane is stale or not.
  swept :
      (now : ℕ) (chat_id : ℤ) (es : List (Entry W))
      → IsMap es
      → (if exists_where (stale_in now chat_id) es then none else lookup chat_id es)
        ≡ unless_stale now (lookup chat_id es)
  unfolding exists_where lookup
  swept now chat_id [] h = refl
  swept now chat_id (e ∷ es) h = elim (Bool-cases (in_lane chat_id e)) [
    | inl hit ↦
        let gone = absent now chat_id es (rw ((int_eq_iff e.chat_id chat_id).0 hit) at h.0) in
        ground arith
    | inr miss ↦ ground (arith, swept now chat_id es h.1)
  ]

  -- The sweep removes exactly what a reader of the same moment no longer sees, and returns how
  -- many routes it removed. The entries stand under different lanes before.
  pub expire_stale_routes_lem :
      (now : ℕ) (s : Routes W)
      → IsMap s.active_routes
      → ((expire_stale_routes now s).0 ≡ count_where (λ e. is_stale now e.route) s.active_routes)
        × ((chat_id : ℤ)
            → lookup chat_id (expire_stale_routes now s).1.active_routes
              ≡ get_active_route s chat_id now)
  unfolding expire_stale_routes get_active_route
  expire_stale_routes_lem now s h = (
    count-expire_entries now s.active_routes s,
    λ chat_id.
        rw (lookup-expire_entries now chat_id s.active_routes s)
          (swept now chat_id s.active_routes h),
  )
