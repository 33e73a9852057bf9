-- ===== src/EveMap/Avoid/Examples.antt =====
-- Runs of the avoid list, and instances of its theorems.
use eveai.Base.{
  ◌≡◌, refl, ◌&&◌, ◌||◌, not, none, some, List, [], ◌∷◌, arith, contains, count_where, exists_where,
  delete_where, update_where, get, put,
}
use eveai.Eve.MapGraph.{load_graph}
use eveai.Eve.MapGraph.SmallMap.{small_map}
use eveai.EveMap.Avoid.{
  AvoidRow, row_of, is_row, Call, adds, removes, add_avoided, effective_avoid_set, apply_all,
}
use eveai.EveMap.Avoid.Limits.{IsLimited, apply_all-IsLimited}
use eveai.EveMap.Avoid.Outcomes.{IsAddition, add_avoided_lem}
use eveai.EveMap.Avoid.Sets.{contains-effective_avoid_set}

abbrev evening : List Call
evening =
    adds 5 4 (some "camp") 10
    ∷ adds 5 2 none 11
    ∷ adds 5 4 none 12
    ∷ adds 5 77 none 13
    ∷ removes 5 2
    ∷ []

abbrev avoiding_four : List AvoidRow
avoiding_four = row_of 5 4 (some "camp") 10 ∷ []

evening_end : apply_all small_map [] evening ≡ avoiding_four
unfolding apply_all load_graph put get delete_where exists_where count_where update_where
evening_end = refl

none-IsLimited : IsLimited []
unfolding count_where
none-IsLimited = record {
  bounded = λ user_id. omega arith;
  once = λ user_id system_id. omega arith;
}

apply_all-IsLimited_example : IsLimited (apply_all small_map [] evening)
apply_all-IsLimited_example = apply_all-IsLimited small_map evening [] none-IsLimited

add_avoided_lem_example :
    IsAddition small_map avoiding_four
      (row_of 5 3 (some "war") 20)
      (add_avoided small_map avoiding_four 5 3 (some "war") 20).0
      (add_avoided small_map avoiding_four 5 3 (some "war") 20).1
add_avoided_lem_example = add_avoided_lem small_map avoiding_four 5 3 (some "war") 20

contains-effective_avoid_set_example :
    contains 4 (effective_avoid_set avoiding_four 5 (2 ∷ []) (1 ∷ 3 ∷ [])) ≡ (
      (exists_where (is_row 5 4) avoiding_four || contains 4 (2 ∷ []))
      && not (contains 4 (1 ∷ 3 ∷ [])))
contains-effective_avoid_set_example =
    contains-effective_avoid_set avoiding_four 5 (2 ∷ []) (1 ∷ 3 ∷ []) 4
