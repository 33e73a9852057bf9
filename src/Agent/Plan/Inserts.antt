-- ===== src/Agent/Plan/Inserts.antt =====
-- The inserts of `updatePlan`: when they succeed, and what they append.
use eveai.Base.{
  ◌≡◌, refl, String, Bool, true, false, not, ◌||◌, ◌&&◌, ◌++◌, none, some, List, [], ◌∷◌, map,
  arith, select_where, delete_where, str_eq, str_eq_refl, if◌then◌else◌, exists_where, ap, sym,
}
use mathlib.Core.List.{append-nil, append_assoc}
use eveai.Agent.Plan.{PlanStep, StepRow, step_of, has_step, insert_all}
use eveai.Agent.Plan.Rows.{steps_of, str_eq_comm}

-- Is an id one of the steps'?
abbrev pub has_id : String → PlanStep → Bool
has_id id s = str_eq s.id id

-- Does no id stand twice in the list?
unfoldable pub is_distinct : List PlanStep → Bool
is_distinct [] = true
is_distinct (s ∷ ss) = not (exists_where (has_id s.id) ss) && is_distinct ss

abbrev pub rows_of : String → List PlanStep → List StepRow
rows_of id ss = map (λ s. record { request_id = id; step = s }) ss

-- Does one of the rows hold one of the steps' keys?
unfoldable pub clashes : String → List PlanStep → List StepRow → Bool
clashes id [] rs = false
clashes id (s ∷ ss) rs = exists_where (has_step id s.id) rs || clashes id ss rs

exists_where-append :
    (p : StepRow → Bool) (rs : List StepRow) (r : StepRow)
    → exists_where p (rs ++ r ∷ []) ≡ (exists_where p rs || p r)
unfolding exists_where
exists_where-append p [] r = ground arith
exists_where-append p (x ∷ rs) r = ground (arith, exists_where-append p rs r)

clashes-append :
    (id : String) (s : PlanStep) (ss : List PlanStep) (rs : List StepRow)
    → clashes id ss (rs ++ record { request_id = id; step = s } ∷ [])
      ≡ (clashes id ss rs || exists_where (has_id s.id) ss)
unfolding clashes exists_where
clashes-append id s [] rs = refl
clashes-append id s (t ∷ ss) rs =
    let same = str_eq_refl id in
    let row : StepRow = record { request_id = id; step = s } in
    let sym_eq : str_eq s.id t.id ≡ str_eq t.id s.id = str_eq_comm s.id t.id in
    ground (arith, clashes-append id s ss rs, exists_where-append (has_step id t.id) rs row)

-- The inserts succeed exactly if the ids are distinct and new, and then append the steps.
pub insert_all_lem :
    (id : String) (ss : List PlanStep) (rs : List StepRow)
    → insert_all id ss rs
      ≡ (if is_distinct ss && not (clashes id ss rs) then some (rs ++ rows_of id ss) else none)
unfolding insert_all is_distinct clashes
insert_all_lem id [] rs = ap some (sym (append-nil rs))
insert_all_lem id (s ∷ ss) rs =
    let row : StepRow = record { request_id = id; step = s } in
    ground (
      arith,
      insert_all_lem id ss (rs ++ row ∷ []),
      clashes-append id s ss rs,
      append_assoc rs (row ∷ []) (rows_of id ss),
    )

exists_where-delete :
    (id step_id : String) (rs : List StepRow)
    → exists_where (has_step id step_id) (delete_where (step_of id) rs) ≡ false
unfolding exists_where delete_where
exists_where-delete id step_id [] = refl
exists_where-delete id step_id (r ∷ rs) = ground (arith, exists_where-delete id step_id rs)

pub clashes_of_none :
    (id : String) (ss : List PlanStep) (rs : List StepRow)
    → clashes id ss (delete_where (step_of id) rs) ≡ false
unfolding clashes
clashes_of_none id [] rs = refl
clashes_of_none id (s ∷ ss) rs = rw (exists_where-delete id s.id rs, clashes_of_none id ss rs) refl

pub steps_of-rows_of : (id : String) (ss : List PlanStep) → steps_of id (rows_of id ss) ≡ ss
unfolding select_where
steps_of-rows_of id [] = refl
steps_of-rows_of id (s ∷ ss) = rw (str_eq_refl id) (ap (◌∷◌ s) (steps_of-rows_of id ss))

pub steps_of-rows_of_other :
    (q id : String) → str_eq id q ≡ false → (ss : List PlanStep) → steps_of q (rows_of id ss) ≡ []
unfolding select_where
steps_of-rows_of_other q id h [] = refl
steps_of-rows_of_other q id h (s ∷ ss) = rw h (steps_of-rows_of_other q id h ss)
