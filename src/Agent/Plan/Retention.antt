-- ===== src/Agent/Plan/Retention.antt =====
-- `prunePlans`: which plans leave.
use eveai.Base.{
  ℕ, suc, ◌+◌, ◌*◌, ◌≡◌, ◌≤◌, refl, Bool, true, false, ◌&&◌, none, some, List, [], ◌∷◌, arith,
  delete_where, select_where, find_where, exists_where, String, str_eq_iff, Bool-cases, inl, inr,
  if◌then◌else◌,
}
use eveai.Agent.Plan.{
  Db, PlanRow, StepRow, ms_per_day, is_old, prune_plans, plan_of, step_of, get_plan,
}
use eveai.Agent.Plan.Rows.{steps_of, get_plan_lem}
use eveai.Agent.Plan.Restart.{IsPrimary}

old_after :
    (now days : ℕ) (p : PlanRow)
    → p.created_at + suc days * ms_per_day ≤ now
    → is_old now days p ≡ true
old_after now days p h = ground arith

young_before :
    (now days : ℕ) (p : PlanRow)
    → now ≤ p.created_at + days * ms_per_day
    → is_old now days p ≡ false
young_before now days p h = ground arith

module _ (old : PlanRow → Bool) where
  absent-old :
      (id : String) (ps : List PlanRow)
      → exists_where (plan_of id) ps ≡ false
      → (exists_where (λ p. old p && plan_of id p) ps ≡ false)
        × (find_where (plan_of id) (delete_where old ps) ≡ none)
  unfolding exists_where find_where delete_where
  absent-old id [] h = (refl, refl)
  absent-old id (p ∷ ps) h = ground (arith, absent-old id ps)

  -- One row of the request, which is old or not.
  found-old :
      (id : String) (ps : List PlanRow) (p : PlanRow)
      → IsPrimary ps
      → find_where (plan_of id) ps ≡ some p
      → (exists_where (λ p. old p && plan_of id p) ps ≡ old p)
        × (find_where (plan_of id) (delete_where old ps) ≡ (if old p then none else some p))
  unfolding exists_where find_where delete_where
  found-old id [] p h e = cc
  found-old id (x ∷ ps) p h e = elim (Bool-cases (plan_of id x)) [
    | inl hit ↦
        let gone = absent-old id ps (rw ((str_eq_iff x.request_id id).0 hit) at h.0) in ground arith
    | inr miss ↦ ground (arith, found-old id ps p)
  ]

  steps_of-prune :
      (id : String) (ps : List PlanRow)
      → exists_where (λ p. old p && plan_of id p) ps ≡ false
      → (rs : List StepRow)
      → steps_of id (delete_where (λ r. exists_where (λ p. old p && plan_of r.request_id p) ps) rs)
        ≡ steps_of id rs
  unfolding select_where delete_where
  steps_of-prune id ps h [] = refl
  steps_of-prune id ps h (r ∷ rs) = elim (Bool-cases (step_of id r)) [
    | inl e ↦
        let young : exists_where (λ p. old p && plan_of r.request_id p) ps ≡ false =
          rw ((str_eq_iff r.request_id id).0 e) h in
        ground (arith, steps_of-prune id ps h rs)
    | inr e ↦ ground (arith, steps_of-prune id ps h rs)
  ]

module _ (now days : ℕ) (db : Db) (keyed : IsPrimary db.plans) (id : String) (p : PlanRow)
    (found : find_where (plan_of id) db.plans ≡ some p) where
  -- A plan reads as before while it is no older than the retention. The primary key of `plans`
  -- holds, and the plan is there before.
  pub prune_plans_keeps :
      now ≤ p.created_at + days * ms_per_day
      → get_plan (prune_plans now db days).1 id ≡ get_plan db id
  unfolding prune_plans
  prune_plans_keeps h =
      let at_id = found-old (is_old now days) id db.plans p keyed found in
      let young = young_before now days p h in
      let kept = rw young at at_id.1 in
      rw
        (
          get_plan_lem (prune_plans now db days).1 id,
          get_plan_lem db id,
          kept,
          found,
          steps_of-prune (is_old now days) id db.plans (rw young at at_id.0) db.plan_steps,
        )
        refl

  -- A plan that is a day older than the retention is gone. The primary key of `plans` holds, and
  -- the plan is there before.
  pub prune_plans_removes :
      p.created_at + suc days * ms_per_day ≤ now → get_plan (prune_plans now db days).1 id ≡ none
  unfolding prune_plans
  prune_plans_removes h =
      let at_id = found-old (is_old now days) id db.plans p keyed found in
      let gone = rw (old_after now days p h) at at_id.1 in
      rw (get_plan_lem (prune_plans now db days).1 id, gone) refl
