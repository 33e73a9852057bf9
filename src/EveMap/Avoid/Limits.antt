-- ===== src/EveMap/Avoid/Limits.antt =====
-- The sizes of the avoid lists over any calls.
use eveai.Base.{
  ℕ, ◌≤◌, ◌<◌, ◌≡◌, refl, subst, String, Bool, false, not, ◌&&◌, Option, List, [], ◌∷◌, ◌++◌, ◌==◌,
  ==_iff, leb, arith, Bool-cases, Option-cases, inl, inr, count_where, count_where-append,
  count_where-delete_where, count_where-exists_where, exists_where, update_where, delete_where,
}
use eveai.Eve.MapGraph.{GraphCache, get_map_system}
use eveai.EveMap.Avoid.{
  AvoidRow, of_pilot, is_row, with_note, row_of, upsert_row, add_avoided, max_avoid_systems, Call,
  adds, removes, clears, apply_all,
}

-- No user has more than 200 systems, and none twice.
pub record IsLimited (rows : List AvoidRow) : Type 0 where
  pub bounded : (user_id : ℕ) → count_where (of_pilot user_id) rows ≤ max_avoid_systems
  pub once : (user_id system_id : ℕ) → count_where (is_row user_id system_id) rows ≤ 1

count_where-noted :
    (p : AvoidRow → Bool) (u s : ℕ) (note : Option String) (rows : List AvoidRow)
    → ((r : AvoidRow) → p (with_note note r) ≡ p r)
    → count_where p (update_where (is_row u s) (with_note note) rows) ≡ count_where p rows
unfolding count_where update_where
count_where-noted p u s text [] h = refl
count_where-noted p u s text (r ∷ rows) h = elim (Bool-cases (is_row u s r)) [
  | inl e ↦ rw (e, h r, count_where-noted p u s text rows h) refl
  | inr e ↦ rw (e, count_where-noted p u s text rows h) refl
]

module _ (rows : List AvoidRow) (limited : IsLimited rows) where
  deleted-IsLimited : (q : AvoidRow → Bool) → IsLimited (delete_where q rows)
  deleted-IsLimited q = record {
    bounded = λ u. omega (arith, count_where-delete_where (of_pilot u) q rows, limited.bounded u);
    once = λ u s. omega (arith, count_where-delete_where (is_row u s) q rows, limited.once u s);
  }

  room :
      (r : AvoidRow)
      → (not (exists_where (is_row r.user_id r.system_id) rows)
          && leb max_avoid_systems (count_where (of_pilot r.user_id) rows))
        ≡ false
      → exists_where (is_row r.user_id r.system_id) rows ≡ false
      → (u : ℕ) → count_where (of_pilot u) (rows ++ r ∷ []) ≤ max_avoid_systems
  unfolding count_where
  room r h e u =
      let old = limited.bounded u in
      let fits : count_where (of_pilot r.user_id) rows < max_avoid_systems = ground arith in
      let added = count_where-append (of_pilot u) rows (r ∷ []) in
      elim (Bool-cases (r.user_id == u)) [
        | inl same ↦
            let below =
              subst (λ x. count_where (of_pilot x) rows < max_avoid_systems)
                ((==_iff r.user_id u).0 same) fits in
            ground arith
        | inr apart ↦ ground arith
      ]

  fresh :
      (r : AvoidRow)
      → exists_where (is_row r.user_id r.system_id) rows ≡ false
      → (u s : ℕ) → count_where (is_row u s) (rows ++ r ∷ []) ≤ 1
  unfolding count_where
  fresh r e u s =
      let old = limited.once u s in
      let added = count_where-append (is_row u s) rows (r ∷ []) in
      elim (Bool-cases (is_row u s r)) [
        | inl same ↦
            let none_yet = count_where-exists_where (is_row r.user_id r.system_id) rows e in
            let at_u : r.user_id ≡ u = (==_iff r.user_id u).0 (ground arith) in
            let at_s : r.system_id ≡ s = (==_iff r.system_id s).0 (ground arith) in
            let none_here =
              subst (λ y. count_where (is_row u y) rows ≡ 0) at_s
                (subst (λ x. count_where (is_row x r.system_id) rows ≡ 0) at_u none_yet) in
            ground arith
        | inr apart ↦ ground arith
      ]

  upsert_row-IsLimited :
      (r : AvoidRow)
      → (not (exists_where (is_row r.user_id r.system_id) rows)
          && leb max_avoid_systems (count_where (of_pilot r.user_id) rows))
        ≡ false
      → IsLimited (upsert_row r rows)
  unfolding upsert_row
  upsert_row-IsLimited r h = elim (Bool-cases (exists_where (is_row r.user_id r.system_id) rows)) [
    | inl e ↦ rw e (record {
      bounded = λ u.
          rw (count_where-noted (of_pilot u) r.user_id r.system_id r.note rows (λ q. refl))
            (limited.bounded u);
      once = λ u s.
          rw (count_where-noted (is_row u s) r.user_id r.system_id r.note rows (λ q. refl))
            (limited.once u s);
    })
    | inr e ↦ rw e (record { bounded = room r h e; once = fresh r e })
  ]

  add_avoided-IsLimited :
      (g : GraphCache) (user_id system_id : ℕ) (note : Option String) (now : ℕ)
      → IsLimited (add_avoided g rows user_id system_id note now).1
  unfolding add_avoided
  add_avoided-IsLimited g u s note now = elim (Option-cases (get_map_system g s)) [
    | inl gone ↦ rw gone limited
    | inr (system, at) ↦
        let full =
          not (exists_where (is_row u s) rows)
          && leb max_avoid_systems (count_where (of_pilot u) rows) in
        elim (Bool-cases full) [
          | inl f ↦ rw (at, f) limited
          | inr f ↦ rw (at, f) (upsert_row-IsLimited (row_of u s note now) f)
        ]
  ]

-- Any calls keep the limit of 200 systems for each user and the key of user and system.
pub apply_all-IsLimited :
    (g : GraphCache) (calls : List Call) (rows : List AvoidRow)
    → IsLimited rows
    → IsLimited (apply_all g rows calls)
unfolding apply_all
apply_all-IsLimited g [] rows h = h
apply_all-IsLimited g (adds u s text now ∷ calls) rows h =
    apply_all-IsLimited g calls _ (add_avoided-IsLimited rows h g u s text now)
apply_all-IsLimited g (removes u s ∷ calls) rows h =
    apply_all-IsLimited g calls _ (deleted-IsLimited rows h (is_row u s))
apply_all-IsLimited g (clears u ∷ calls) rows h =
    apply_all-IsLimited g calls _ (deleted-IsLimited rows h (of_pilot u))
