-- ===== src/Agent/Plan/Rows.antt =====
-- What `getPlan` reads after the statements on one request: in that request, and in another.
use eveai.Base.{
  ◌≡◌, refl, String, Bool, true, false, Option, none, some, List, [], ◌∷◌, ◌++◌, map, arith,
  Bool-cases, inl, inr, find_where, select_where, update_where, delete_where, str_eq, str_eq_iff,
  if◌then◌else◌,
}
use mathlib.Core.Option
use eveai.Agent.Plan.{
  Db, Plan, PlanRow, PlanStep, StepRow, StepStatus, plan_of, step_of, on_steps, get_plan, to_plan,
}

abbrev pub steps_of : String → List StepRow → List PlanStep
steps_of id rs = map (λ r. r.step) (select_where (step_of id) rs)

-- The plan that is read, from the row of the plan and the steps.
abbrev pub planned : Option PlanRow → List PlanStep → Option Plan
planned none ss = none
planned (some p) ss =
    some (record { request_id = p.request_id; goal = p.goal; status = p.status; steps = ss })

to_plan_lem :
    (o : Option PlanRow) (rs : List StepRow) → to_plan o rs ≡ planned o (map (λ r. r.step) rs)
to_plan_lem none rs = refl
to_plan_lem (some p) rs = refl

pub get_plan_lem :
    (db : Db) (id : String)
    → get_plan db id ≡ planned (find_where (plan_of id) db.plans) (steps_of id db.plan_steps)
unfolding get_plan
get_plan_lem db id =
    to_plan_lem (find_where (plan_of id) db.plans) (select_where (step_of id) db.plan_steps)

pub apart :
    (q id other : String) → str_eq id q ≡ false → str_eq other id ≡ true → str_eq other q ≡ false
apart q id other h e = rw ((str_eq_iff other id).0 e) h

pub str_eq_comm : (a b : String) → str_eq a b ≡ str_eq b a
str_eq_comm a b = elim (Bool-cases (str_eq a b)) [
  | inl e ↦ rw ((str_eq_iff a b).0 e) refl
  | inr e ↦ elim (Bool-cases (str_eq b a)) [
    | inl e' ↦ rw ((str_eq_iff b a).0 e') refl
    | inr e' ↦ rw (e, e') refl
  ]
]

module _ (at : StepStatus → Bool) (f : PlanStep → PlanStep) where
  abbrev pub on_status : PlanStep → PlanStep
  on_status s = if at s.status then f s else s

  pub steps_of-on_steps :
      (id : String) (rs : List StepRow)
      → steps_of id (on_steps id at f rs) ≡ map on_status (steps_of id rs)
  unfolding select_where update_where
  steps_of-on_steps id [] = refl
  steps_of-on_steps id (r ∷ rs) = ground (arith, steps_of-on_steps id rs)

  pub steps_of-on_steps_other :
      (q id : String)
      → str_eq id q ≡ false
      → (rs : List StepRow) → steps_of q (on_steps id at f rs) ≡ steps_of q rs
  unfolding select_where update_where
  steps_of-on_steps_other q id h [] = refl
  steps_of-on_steps_other q id h (r ∷ rs) = elim (Bool-cases (step_of id r)) [
    | inl e ↦
        let differs = apart q id r.request_id h e in
        ground (arith, steps_of-on_steps_other q id h rs)
    | inr e ↦ ground (arith, steps_of-on_steps_other q id h rs)
  ]

module _ (f : PlanRow → PlanRow) (keep : (p : PlanRow) → (f p).request_id ≡ p.request_id) where
  pub find_where-update_plan :
      (id : String) (ps : List PlanRow)
      → find_where (plan_of id) (update_where (plan_of id) f ps)
        ≡ Option.map f (find_where (plan_of id) ps)
  unfolding find_where update_where
  find_where-update_plan id [] = refl
  find_where-update_plan id (p ∷ ps) =
      let same = keep p in ground (arith, find_where-update_plan id ps)

  pub find_where-update_other :
      (q id : String)
      → str_eq id q ≡ false
      → (ps : List PlanRow)
      → find_where (plan_of q) (update_where (plan_of id) f ps) ≡ find_where (plan_of q) ps
  unfolding find_where update_where
  find_where-update_other q id h [] = refl
  find_where-update_other q id h (p ∷ ps) = elim (Bool-cases (plan_of id p)) [
    | inl e ↦
        let same = keep p in
        let differs = apart q id p.request_id h e in
        ground (arith, find_where-update_other q id h ps)
    | inr e ↦ ground (arith, find_where-update_other q id h ps)
  ]

pub steps_of-delete :
    (id : String) (rs : List StepRow) → steps_of id (delete_where (step_of id) rs) ≡ []
unfolding select_where delete_where
steps_of-delete id [] = refl
steps_of-delete id (r ∷ rs) = ground (arith, steps_of-delete id rs)

pub steps_of-delete_other :
    (q id : String)
    → str_eq id q ≡ false
    → (rs : List StepRow) → steps_of q (delete_where (step_of id) rs) ≡ steps_of q rs
unfolding select_where delete_where
steps_of-delete_other q id h [] = refl
steps_of-delete_other q id h (r ∷ rs) = elim (Bool-cases (step_of id r)) [
  | inl e ↦
      let differs = apart q id r.request_id h e in ground (arith, steps_of-delete_other q id h rs)
  | inr e ↦ ground (arith, steps_of-delete_other q id h rs)
]

pub steps_of-append :
    (id : String) (rs ts : List StepRow) → steps_of id (rs ++ ts) ≡ steps_of id rs ++ steps_of id ts
unfolding select_where
steps_of-append id [] ts = refl
steps_of-append id (r ∷ rs) ts = ground (arith, steps_of-append id rs ts)

pub map_ext :
    (f g h : PlanStep → PlanStep)
    → ((s : PlanStep) → f (g s) ≡ h s)
    → (ss : List PlanStep) → map f (map g ss) ≡ map h ss
map_ext f g h e [] = refl
map_ext f g h e (s ∷ ss) = rw (e s, map_ext f g h e ss) refl
