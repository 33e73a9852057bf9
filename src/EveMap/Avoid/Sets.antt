-- ===== src/EveMap/Avoid/Sets.antt =====
-- Which systems are avoided: the stored set and the effective set of a request.
use eveai.Base.{
  ℕ, ◌≡◌, refl, not, ◌&&◌, ◌||◌, List, [], ◌∷◌, ◌++◌, ◌==◌, ==_iff, arith, contains, exists_where,
  select_where, delete_where,
}
use eveai.Eve.MapGraph.Levels.{contains-snoc}
use eveai.EveMap.Avoid.{AvoidRow, is_row, avoid_set_for, add_each, delete_each, effective_avoid_set}

-- The stored set holds the systems of the user's rows.
pub contains-avoid_set_for :
    (rows : List AvoidRow) (user_id id : ℕ)
    → contains id (avoid_set_for rows user_id) ≡ exists_where (is_row user_id id) rows
unfolding avoid_set_for select_where exists_where
contains-avoid_set_for [] user_id id = refl
contains-avoid_set_for (r ∷ rows) user_id id =
    ground (arith, contains-avoid_set_for rows user_id id)

contains-add_each :
    (id : ℕ) (ids more : List ℕ)
    → contains id (add_each ids more) ≡ (contains id ids || contains id more)
unfolding add_each
contains-add_each id ids [] = ground arith
contains-add_each id ids (x ∷ more) = ground (
  arith,
  contains-add_each id ids more,
  contains-add_each id (ids ++ x ∷ []) more,
  contains-snoc id x ids,
  ==_iff x id,
)

contains-delete_where :
    (id x : ℕ) (ids : List ℕ)
    → contains id (delete_where (λ y. y == x) ids) ≡ (contains id ids && not (x == id))
unfolding delete_where
contains-delete_where id x [] = refl
contains-delete_where id x (y ∷ ids) =
    ground (arith, contains-delete_where id x ids, ==_iff y x, ==_iff x id, ==_iff y id)

contains-delete_each :
    (id : ℕ) (ids more : List ℕ)
    → contains id (delete_each ids more) ≡ (contains id ids && not (contains id more))
unfolding delete_each
contains-delete_each id ids [] = ground arith
contains-delete_each id ids (x ∷ more) = ground (
  arith,
  contains-delete_each id (delete_where (λ y. y == x) ids) more,
  contains-delete_where id x ids,
)

-- A system is in the effective set exactly if it is stored for the user or named by the request,
-- and not kept.
pub contains-effective_avoid_set :
    (rows : List AvoidRow) (user_id : ℕ) (request_avoid keep : List ℕ) (id : ℕ)
    → contains id (effective_avoid_set rows user_id request_avoid keep) ≡ (
        (exists_where (is_row user_id id) rows || contains id request_avoid)
        && not (contains id keep))
unfolding effective_avoid_set
contains-effective_avoid_set rows user_id request_avoid keep id =
    rw
      (
        contains-delete_each id (add_each (avoid_set_for rows user_id) request_avoid) keep,
        contains-add_each id (avoid_set_for rows user_id) request_avoid,
        contains-avoid_set_for rows user_id id,
      )
      refl
