-- ===== src/EveMap/Avoid/Outcomes.antt =====
-- What `addAvoided` answers and stores.
use eveai.Base.{
  ℕ, ◌≤◌, ◌<◌, ◌≡◌, refl, ap, String, Bool, true, false, not, ◌&&◌, Option, none, some, List, [],
  ◌∷◌, ◌++◌, ◌==◌, ==_iff, if◌then◌else◌, leb, leb→le, arith, Bool-cases, Option-cases, inl, inr,
  count_where, exists_where, find_where, update_where,
}
use eveai.Eve.MapGraph.{GraphCache, MapSystem, get_map_system}
use eveai.EveMap.Avoid.{
  AvoidRow, AddResult, added, not_on_map, list_full, of_pilot, is_row, with_note, row_of, new_entry,
  upsert_row, add_avoided, max_avoid_systems,
}

-- The row under a key after an insert: the new one, or the old one with a note that is given.
abbrev pub merged : AvoidRow → Option AvoidRow → AvoidRow
merged r none = r
merged r (some old) = with_note r.note old

find_where-append :
    (r : AvoidRow) (rows : List AvoidRow) (u s : ℕ)
    → find_where (is_row u s) (rows ++ r ∷ [])
      ≡ elim (find_where (is_row u s) rows) as (λ _. Option AvoidRow) [
        | none ↦ (if is_row u s r then some r else none)
        | some q ↦ some q
      ]
unfolding find_where
find_where-append r [] u s = refl
find_where-append r (q ∷ rows) u s = ground (arith, find_where-append r rows u s)

find_where-none :
    (u s : ℕ) (rows : List AvoidRow)
    → exists_where (is_row u s) rows ≡ false
    → find_where (is_row u s) rows ≡ none
unfolding find_where exists_where
find_where-none u s [] h = refl
find_where-none u s (q ∷ rows) h = ground (arith, find_where-none u s rows)

find_where-some :
    (u s : ℕ) (rows : List AvoidRow)
    → exists_where (is_row u s) rows ≡ true
    → (r : AvoidRow) × (find_where (is_row u s) rows ≡ some r)
unfolding find_where exists_where
find_where-some u s [] h = cc
find_where-some u s (q ∷ rows) h = elim (Bool-cases (is_row u s q)) [
  | inl e ↦ (q, rw e refl)
  | inr e ↦ let (r, at) = find_where-some u s rows (rw e at h) in (r, rw e at)
]

other_key :
    (u s u' s' : ℕ) (q : AvoidRow)
    → (u == u' && s == s') ≡ false
    → is_row u s q ≡ true
    → is_row u' s' q ≡ false
other_key u s u' s' q h k = ground (
  arith,
  ==_iff q.user_id u,
  ==_iff q.user_id u',
  ==_iff q.system_id s,
  ==_iff q.system_id s',
  ==_iff u u',
  ==_iff s s',
)

module _ (u s : ℕ) (note : Option String) where
  abbrev noted : List AvoidRow → List AvoidRow
  noted rows = update_where (is_row u s) (with_note note) rows

  find_where-noted :
      (rows : List AvoidRow) (r : AvoidRow)
      → find_where (is_row u s) rows ≡ some r
      → find_where (is_row u s) (noted rows) ≡ some (with_note note r)
  unfolding find_where update_where
  find_where-noted [] r h = cc
  find_where-noted (q ∷ rows) r h = elim (Bool-cases (is_row u s q)) [
    | inl e ↦
        let same : some q ≡ some r = rw e at h in
        rw (e, e) (ap (λ x. some (with_note note x)) (ground arith))
    | inr e ↦ rw (e, e) (find_where-noted rows r (rw e at h))
  ]

  find_where-noted_other :
      (u' s' : ℕ) (rows : List AvoidRow)
      → (u == u' && s == s') ≡ false
      → find_where (is_row u' s') (noted rows) ≡ find_where (is_row u' s') rows
  unfolding find_where update_where
  find_where-noted_other u' s' [] h = refl
  find_where-noted_other u' s' (q ∷ rows) h = elim (Bool-cases (is_row u s q)) [
    | inl e ↦
        let other = other_key u s u' s' q h e in rw (e, other) (find_where-noted_other u' s' rows h)
    | inr e ↦
        rw e (ap (λ x. if is_row u' s' q then some q else x) (find_where-noted_other u' s' rows h))
  ]

module _ (r : AvoidRow) (rows : List AvoidRow) where
  abbrev is_key : ℕ → ℕ → Bool
  is_key u s = r.user_id == u && r.system_id == s

  upsert_row-own :
      find_where (is_row r.user_id r.system_id) (upsert_row r rows)
      ≡ some (merged r (find_where (is_row r.user_id r.system_id) rows))
  unfolding upsert_row
  upsert_row-own = elim (Bool-cases (exists_where (is_row r.user_id r.system_id) rows)) [
    | inl e ↦
        let (old, at) = find_where-some r.user_id r.system_id rows e in
        rw (e, at) (find_where-noted r.user_id r.system_id r.note rows old at)
    | inr e ↦
        let gone = find_where-none r.user_id r.system_id rows e in
        rw
          (
            e,
            find_where-append r rows r.user_id r.system_id,
            gone,
            (==_iff r.user_id r.user_id).1 refl,
            (==_iff r.system_id r.system_id).1 refl,
          )
          refl
  ]

  upsert_row-other :
      (u s : ℕ)
      → is_key u s ≡ false
      → find_where (is_row u s) (upsert_row r rows) ≡ find_where (is_row u s) rows
  unfolding upsert_row
  upsert_row-other u s h = elim (Bool-cases (exists_where (is_row r.user_id r.system_id) rows)) [
    | inl e ↦ rw e (find_where-noted_other r.user_id r.system_id r.note u s rows h)
    | inr e ↦ elim (Option-cases (find_where (is_row u s) rows)) [
      | inl gone ↦ rw (e, find_where-append r rows u s, gone, h) refl
      | inr (q, at) ↦ rw (e, find_where-append r rows u s, at) refl
    ]
  ]

-- What a call answers and leaves. Of a row that exists only the note may change.
pub data IsAddition (g : GraphCache) (rows : List AvoidRow) (r : AvoidRow)
    : AddResult → List AvoidRow → Type 0 where
  unknown : get_map_system g r.system_id ≡ none → IsAddition g rows r (not_on_map r.system_id) rows
  full :
      find_where (is_row r.user_id r.system_id) rows ≡ none
      → max_avoid_systems ≤ count_where (of_pilot r.user_id) rows
      → IsAddition g rows r list_full rows
  stored :
      {s : MapSystem} {present : Bool} {rows' : List AvoidRow}
      → get_map_system g r.system_id ≡ some s
      → present ≡ exists_where (is_row r.user_id r.system_id) rows
      → (present ≡ false → count_where (of_pilot r.user_id) rows < max_avoid_systems)
      → find_where (is_row r.user_id r.system_id) rows'
        ≡ some (merged r (find_where (is_row r.user_id r.system_id) rows))
      → ((u s : ℕ)
          → is_key r rows u s ≡ false
          → find_where (is_row u s) rows' ≡ find_where (is_row u s) rows)
      → IsAddition g rows r (added (new_entry s r.system_id r.note r.created_at_ms) present) rows'

module _ (g : GraphCache) (rows : List AvoidRow) (user_id system_id : ℕ) (note : Option String)
    (now : ℕ) where
  abbrev is_full : Bool
  is_full =
      not (exists_where (is_row user_id system_id) rows)
      && leb max_avoid_systems (count_where (of_pilot user_id) rows)

  add_avoided_unknown :
      get_map_system g system_id ≡ none
      → add_avoided g rows user_id system_id note now ≡ (not_on_map system_id, rows)
  unfolding add_avoided
  add_avoided_unknown h = rw h refl

  add_avoided_full :
      (s : MapSystem)
      → get_map_system g system_id ≡ some s
      → is_full ≡ true
      → add_avoided g rows user_id system_id note now ≡ (list_full, rows)
  unfolding add_avoided
  add_avoided_full s h k = rw (h, k) refl

  add_avoided_stored :
      (s : MapSystem)
      → get_map_system g system_id ≡ some s
      → is_full ≡ false
      → add_avoided g rows user_id system_id note now ≡ (
        added (new_entry s system_id note now) (exists_where (is_row user_id system_id) rows),
        upsert_row (row_of user_id system_id note now) rows,
      )
  unfolding add_avoided
  add_avoided_stored s h k = rw (h, k) refl

-- `addAvoided` refuses a system that the map does not have and, for a user with 200 systems, one
-- that is not listed; it then writes nothing. Otherwise the row of the user and the system is the
-- new one, or the old one with the note that is given, and all other rows stay.
pub add_avoided_lem :
    (g : GraphCache) (rows : List AvoidRow) (user_id system_id : ℕ) (note : Option String) (now : ℕ)
    → IsAddition g rows
        (row_of user_id system_id note now)
        (add_avoided g rows user_id system_id note now).0
        (add_avoided g rows user_id system_id note now).1
add_avoided_lem g rows u s note now =
    let r = row_of u s note now in
    elim (Option-cases (get_map_system g s)) [
      | inl gone ↦ rw (add_avoided_unknown g rows u s note now gone) (unknown gone)
      | inr (system, at) ↦ elim (Bool-cases (is_full g rows u s note now)) [
        | inl f ↦
            rw (add_avoided_full g rows u s note now system at f)
              (full (find_where-none u s rows (ground arith)) (leb→le _ _ (ground arith)))
        | inr f ↦
            rw (add_avoided_stored g rows u s note now system at f)
              (stored at refl (λ x. ground arith) (upsert_row-own r rows) (upsert_row-other r rows))
      ]
    ]
