-- ===== src/Agent/Plan/Turns.antt =====
-- The end of a turn and the recovery after a restart, as functions of the plans that are read.
use eveai.Base.{
  ℕ, ◌≡◌, refl, String, false, Option, none, some, List, map, arith, Option-cases, inl, inr,
  find_where, str_eq, if◌then◌else◌,
}
use mathlib.Core.Option
use eveai.Agent.Plan.{
  Db, Plan, PlanRow, PlanStep, PlanStatus, PlanFailureCategory, StepStatus, plan_of, on_steps,
  get_plan, is_active, is_cancel, is_pending, is_running, failure_note, completion_note, mark_done,
  orchestration_failure, close_step, close_plan, set_plan_status, blocked, pending, running,
  completed, finalize_plan_failure, finalize_plan_completion,
}
use eveai.Agent.Plan.Rows.{
  steps_of, planned, get_plan_lem, on_status, steps_of-on_steps, steps_of-on_steps_other,
  find_where-update_plan, find_where-update_other, map_ext,
}

-- A turn that failed: its running step failed, what never started is blocked, the rest stays.
-- A cancelled turn blocks the running step as well.
abbrev pub fail_step : PlanFailureCategory → PlanStep → PlanStep
fail_step c s = elim s.status [
  | running ↦ close_step (if is_cancel c then blocked else StepStatus.failed) (failure_note c) s
  | pending ↦ close_step blocked (failure_note c) s
  | _ ↦ s
]

abbrev pub fail_plan : PlanFailureCategory → Plan → Plan
fail_plan c p = record p {
  status = if is_cancel c then PlanStatus.cancelled else PlanStatus.failed;
  steps = map (fail_step c) p.steps;
}

abbrev pub complete_step : PlanStep → PlanStep
complete_step s = elim s.status [
  | running ↦ mark_done s
  | pending ↦ close_step blocked completion_note s
  | _ ↦ s
]

abbrev pub complete_plan : Plan → Plan
complete_plan p = record p { status = completed; steps = map complete_step p.steps }

steps_of-close_plan :
    (now : ℕ) (db : Db) (id : String) (st : PlanStatus) (f h : PlanStep → PlanStep) (note : String)
    → ((s : PlanStep)
        → on_status is_pending (close_step blocked note) (on_status is_running f s) ≡ h s)
    → steps_of id (close_plan now db id st f note).plan_steps ≡ map h (steps_of id db.plan_steps)
steps_of-close_plan now db id st f h note e =
    rw
      (
        steps_of-on_steps is_pending (close_step blocked note) id
            (on_steps id is_running f db.plan_steps),
        steps_of-on_steps is_running f id db.plan_steps,
      )
      (map_ext _ _ h e (steps_of id db.plan_steps))

planned-map :
    (now : ℕ) (st : PlanStatus) (h : PlanStep → PlanStep) (o : Option PlanRow) (ss : List PlanStep)
    → planned (Option.map (set_plan_status now st) o) (map h ss)
      ≡ Option.map {A = Plan} (λ p. record p { status = st; steps = map h p.steps }) (planned o ss)
planned-map now st h none ss = refl
planned-map now st h (some p) ss = refl

get_plan-close_plan :
    (now : ℕ) (db : Db) (id : String) (st : PlanStatus) (f h : PlanStep → PlanStep) (note : String)
    → ((s : PlanStep)
        → on_status is_pending (close_step blocked note) (on_status is_running f s) ≡ h s)
    → get_plan (close_plan now db id st f note) id
      ≡ Option.map {A = Plan}
          (λ p. record p { status = st; steps = map h p.steps })
          (get_plan db id)
get_plan-close_plan now db id st f h note e =
    rw
      (
        get_plan_lem (close_plan now db id st f note) id,
        get_plan_lem db id,
        steps_of-close_plan now db id st f h note e,
        find_where-update_plan (set_plan_status now st) (λ p. refl) id db.plans,
      )
      (planned-map now st h (find_where (plan_of id) db.plans) (steps_of id db.plan_steps))

get_plan-close_plan_other :
    (now : ℕ) (db : Db) (q id : String) (st : PlanStatus) (f : PlanStep → PlanStep) (note : String)
    → str_eq id q ≡ false
    → get_plan (close_plan now db id st f note) q ≡ get_plan db q
get_plan-close_plan_other now db q id st f note h =
    rw
      (
        get_plan_lem (close_plan now db id st f note) q,
        get_plan_lem db q,
        steps_of-on_steps_other is_pending (close_step blocked note) q id h
            (on_steps id is_running f db.plan_steps),
        steps_of-on_steps_other is_running f q id h db.plan_steps,
        find_where-update_other (set_plan_status now st) (λ p. refl) q id h db.plans,
      )
      refl

module _ (now : ℕ) (db : Db) (id : String) (missing : find_where (plan_of id) db.plans ≡ none) where
  get_plan_missing : get_plan db id ≡ none
  get_plan_missing = rw (get_plan_lem db id, missing) refl

  failure_missing : (c : PlanFailureCategory) → finalize_plan_failure now db id c ≡ (none, db)
  unfolding finalize_plan_failure
  failure_missing c = rw (finalize_plan_failure, missing) refl

  completion_missing : finalize_plan_completion now db id ≡ (none, db)
  unfolding finalize_plan_completion
  completion_missing = rw (finalize_plan_completion, missing) refl

module _ (now : ℕ) (db : Db) (id : String) (p : PlanRow)
    (found : find_where (plan_of id) db.plans ≡ some p) where
  failure_found :
      (c : PlanFailureCategory)
      → let db' =
          close_plan now db id
            (if is_cancel c then PlanStatus.cancelled else PlanStatus.failed)
            (close_step (if is_cancel c then blocked else StepStatus.failed) (failure_note c))
            (failure_note c) in
        finalize_plan_failure now db id c ≡ (get_plan db' id, db')
  unfolding finalize_plan_failure
  failure_found c = rw (finalize_plan_failure, found) refl

  completion_found :
      let db' = close_plan now db id completed mark_done completion_note in
      finalize_plan_completion now db id ≡ (get_plan db' id, db')
  unfolding finalize_plan_completion
  completion_found = rw (finalize_plan_completion, found) refl

-- A failed turn closes the plan of its request as `fail_plan` says and returns that plan, and
-- every other plan reads as before. A request without a plan gets none.
pub finalize_plan_failure_lem :
    (now : ℕ) (db : Db) (id : String) (c : PlanFailureCategory)
    → ((finalize_plan_failure now db id c).0 ≡ Option.map (fail_plan c) (get_plan db id))
      × (get_plan (finalize_plan_failure now db id c).1 id
          ≡ Option.map (fail_plan c) (get_plan db id))
      × ((q : String)
          → str_eq id q ≡ false
          → get_plan (finalize_plan_failure now db id c).1 q ≡ get_plan db q)
finalize_plan_failure_lem now db id c = elim (Option-cases (find_where (plan_of id) db.plans)) [
  | inl e ↦
      rw (failure_missing now db id e c, get_plan_missing now db id e) (refl, refl, λ q h. refl)
  | inr (p, e) ↦
      let after =
        get_plan-close_plan now db id _ _ (fail_step c) (failure_note c) (λ s. ground arith) in
      rw (failure_found now db id p e c)
        (after, after, λ q h. get_plan-close_plan_other now db q id _ _ _ h)
]

-- A completed turn closes its plan as `complete_plan` says and returns that plan, and every other
-- plan reads as before. A request without a plan gets none.
pub finalize_plan_completion_lem :
    (now : ℕ) (db : Db) (id : String)
    → ((finalize_plan_completion now db id).0 ≡ Option.map complete_plan (get_plan db id))
      × (get_plan (finalize_plan_completion now db id).1 id
          ≡ Option.map complete_plan (get_plan db id))
      × ((q : String)
          → str_eq id q ≡ false
          → get_plan (finalize_plan_completion now db id).1 q ≡ get_plan db q)
finalize_plan_completion_lem now db id = elim (Option-cases (find_where (plan_of id) db.plans)) [
  | inl e ↦
      rw (completion_missing now db id e, get_plan_missing now db id e) (refl, refl, λ q h. refl)
  | inr (p, e) ↦
      let after =
        get_plan-close_plan now db id completed mark_done complete_step completion_note
          (λ s. ground arith) in
      rw (completion_found now db id p e)
        (after, after, λ q h. get_plan-close_plan_other now db q id _ _ _ h)
]

-- The spec of the recovery: a plan that was active failed with the category
-- 'orchestration_failure', and every other plan stays.
abbrev pub recovered : Plan → Plan
recovered p = if is_active p.status then fail_plan orchestration_failure p else p

fail_step_twice :
    (c : PlanFailureCategory) (s : PlanStep) → fail_step c (fail_step c s) ≡ fail_step c s
fail_step_twice c s = ground arith

pub fail_plan_twice :
    (c : PlanFailureCategory) (p : Plan) → fail_plan c (fail_plan c p) ≡ fail_plan c p
fail_plan_twice c p =
    rw (map_ext (fail_step c) (fail_step c) (fail_step c) (fail_step_twice c) p.steps) refl
