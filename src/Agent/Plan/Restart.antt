-- ===== src/Agent/Plan/Restart.antt =====
-- `recoverInterruptedPlans`: what the start of a process does to the plans of the last one.
use eveai.Base.{
  ℕ, ◌≡◌, refl, String, Bool, false, Option, none, some, List, [], ◌∷◌, length, arith, Bool-cases,
  inl, inr, find_where, select_where, str_eq, str_eq_iff, if◌then◌else◌, count_where, exists_where,
  ap, subst,
}
use mathlib.Core.Option
use eveai.Agent.Plan.{
  Db, Plan, PlanRow, plan_of, get_plan, is_active, includes, orchestration_failure,
  finalize_plan_failure, fail_all, active_ids, recover_interrupted_plans,
}
use eveai.Agent.Plan.Rows.{steps_of, planned, get_plan_lem}
use eveai.Agent.Plan.Turns.{fail_plan, fail_plan_twice, finalize_plan_failure_lem, recovered}

-- The primary key of `plans`.
abbrev pub IsPrimary : List PlanRow → Type 0
IsPrimary [] = Unit
IsPrimary (p ∷ ps) = (exists_where (plan_of p.request_id) ps ≡ false) × IsPrimary ps

fail_twice :
    (o : Option Plan)
    → Option.map (fail_plan orchestration_failure) (Option.map (fail_plan orchestration_failure) o)
      ≡ Option.map (fail_plan orchestration_failure) o
fail_twice none = refl
fail_twice (some p) = ap some (fail_plan_twice orchestration_failure p)

get_plan-fail_all :
    (now : ℕ) (q : String) (ids : List String) (db : Db)
    → get_plan (fail_all now db ids) q ≡ (
        if includes ids q
        then Option.map (fail_plan orchestration_failure) (get_plan db q)
        else get_plan db q)
unfolding fail_all includes
get_plan-fail_all now q [] db = refl
get_plan-fail_all now q (id ∷ ids) db =
    let db' = (finalize_plan_failure now db id orchestration_failure).1 in
    let here = finalize_plan_failure_lem now db id orchestration_failure in
    let rest = get_plan-fail_all now q ids db' in
    elim (Bool-cases (str_eq id q)) [
      | inl same ↦
          let at_q : get_plan db' q ≡ Option.map (fail_plan orchestration_failure) (get_plan db q) =
            subst
              (λ x. get_plan db' x ≡ Option.map (fail_plan orchestration_failure) (get_plan db x))
              ((str_eq_iff id q).0 same) here.1 in
          rw (rest, same, at_q, fail_twice (get_plan db q)) (ground arith)
      | inr other ↦ rw (rest, other, here.2 q other) refl
    ]

active_ids_absent :
    (q : String) (ps : List PlanRow)
    → exists_where (plan_of q) ps ≡ false
    → includes (active_ids ps) q ≡ false
unfolding includes select_where exists_where
active_ids_absent q [] h = refl
active_ids_absent q (p ∷ ps) h = ground (arith, active_ids_absent q ps)

abbrev is_active_row : Option PlanRow → Bool
is_active_row none = false
is_active_row (some p) = is_active p.status

active_ids-IsPrimary :
    (q : String) (ps : List PlanRow)
    → IsPrimary ps
    → includes (active_ids ps) q ≡ is_active_row (find_where (plan_of q) ps)
unfolding includes select_where find_where
active_ids-IsPrimary q [] h = refl
active_ids-IsPrimary q (p ∷ ps) h = elim (Bool-cases (plan_of q p)) [
  | inl e ↦
      let absent = active_ids_absent q ps (rw ((str_eq_iff p.request_id q).0 e) at h.0) in
      ground arith
  | inr e ↦ ground (arith, active_ids-IsPrimary q ps h.1)
]

length-active_ids :
    (ps : List PlanRow) → length (active_ids ps) ≡ count_where (λ p. is_active p.status) ps
unfolding select_where count_where
length-active_ids [] = refl
length-active_ids (p ∷ ps) = ground (arith, length-active_ids ps)

recovered-planned :
    (o : Option PlanRow) (db : Db) (q : String)
    → o ≡ find_where (plan_of q) db.plans
    → (if is_active_row o
        then Option.map (fail_plan orchestration_failure) (planned o (steps_of q db.plan_steps))
        else planned o (steps_of q db.plan_steps))
      ≡ Option.map recovered (planned o (steps_of q db.plan_steps))
recovered-planned none db q h = refl
recovered-planned (some p) db q h = elim (Bool-cases (is_active p.status)) [
  | inl e ↦ rw e refl
  | inr e ↦ rw e refl
]

-- After a restart every plan that was active has failed with the category 'orchestration_failure',
-- every other plan reads as before, and the number of the failed plans is returned. The primary
-- key of `plans` holds before.
pub recover_interrupted_plans_lem :
    (now : ℕ) (db : Db)
    → IsPrimary db.plans
    → ((recover_interrupted_plans now db).0 ≡ count_where (λ p. is_active p.status) db.plans)
      × ((q : String)
          → get_plan (recover_interrupted_plans now db).1 q ≡ Option.map recovered (get_plan db q))
unfolding recover_interrupted_plans
recover_interrupted_plans_lem now db h = (
  length-active_ids db.plans,
  λ q.
      rw
        (
          get_plan-fail_all now q (active_ids db.plans) db,
          active_ids-IsPrimary q db.plans h,
          get_plan_lem db q,
        )
        (recovered-planned (find_where (plan_of q) db.plans) db q refl),
)
