-- ===== src/Agent/Plan/Replanning.antt =====
-- `replanOnFailure`: the running step failed, and the steps that wait for it are blocked.
use eveai.Base.{
  ℕ, ◌≡◌, ◌≢◌, refl, subst, All, Bool-cases, ◌++◌, String, true, false, Option, none, some, List,
  [], ◌∷◌, map, arith, Option-cases, inl, inr, ap, find_where, exists_where, str_eq,
}
use mathlib.Core.List.{Forall₂}
use eveai.Agent.Plan.{
  Db, Plan, PlanStep, get_plan, is_running, replan_step, Replan, replanned, unchanged,
  replan_on_failure, StepStatus, running, active, replan, replan_at, plan_of, PlanRow,
}
use eveai.Agent.Plan.Rows.{steps_of, planned, get_plan_lem}
use eveai.Agent.Plan.Inserts.{has_id, is_distinct}
use eveai.Agent.Plan.Changes.{StepChange, map-StepChange}
use eveai.Agent.Plan.Replacing.{update_plan_lem, find_where-id}

exists_where-replan_step :
    (id failed error : String) (ss : List PlanStep)
    → exists_where (has_id id) (map (replan_step failed error) ss) ≡ exists_where (has_id id) ss
unfolding exists_where
exists_where-replan_step id failed error [] = refl
exists_where-replan_step id failed error (s ∷ ss) =
    ground (arith, exists_where-replan_step id failed error ss)

is_distinct-replan_step :
    (failed error : String) (ss : List PlanStep)
    → is_distinct (map (replan_step failed error) ss) ≡ is_distinct ss
unfolding is_distinct
is_distinct-replan_step failed error [] = refl
is_distinct-replan_step failed error (s ∷ ss) =
    ground (
      arith,
      is_distinct-replan_step failed error ss,
      exists_where-replan_step s.id failed error ss,
    )

-- What the caller is told and what the table then has: nothing new without a plan or a running
-- step; else the change of each step behind the failure of the first that runs.
pub data PlanChange (error : String) : Option Plan → Replan → Option Plan → Type 0 where
  no_plan : PlanChange error none (unchanged none) none
  nothing_runs :
      {p : Plan}
      → All (λ s. s.status ≢ running) p.steps
      → PlanChange error (some p) (unchanged (some p)) (some p)
  step_fails :
      {p : Plan} (before after : List PlanStep) (s : PlanStep) (steps' : List PlanStep)
      → p.steps ≡ before ++ s ∷ after
      → All (λ q. q.status ≢ running) before
      → s.status ≡ running
      → Forall₂ (StepChange s.id error) p.steps steps'
      → PlanChange error
          (some p)
          (replanned
            (record { request_id = p.request_id; goal = p.goal; status = active; steps = steps' }))
          (some (record {
            request_id = p.request_id;
            goal = p.goal;
            status = p.status;
            steps = steps';
          }))

running-eq : (st : StepStatus) → is_running st ≡ true → st ≡ running
running-eq st h = ground arith

not_running : (st : StepStatus) → is_running st ≡ false → st ≢ running
not_running st h e = absurd (let x = rw e at h in cc)

no_running :
    (ss : List PlanStep)
    → find_where (λ s. is_running s.status) ss ≡ none
    → All (λ s. s.status ≢ running) ss
unfolding find_where
no_running [] h = tt
no_running (s ∷ ss) h = elim (Bool-cases (is_running s.status)) [
  | inl e ↦ absurd (let x = rw e at h in cc)
  | inr e ↦ (not_running s.status e, no_running ss (rw e at h))
]

-- The step that `find` finds: it runs, and none before does.
first_running :
    (ss : List PlanStep) (s : PlanStep)
    → find_where (λ q. is_running q.status) ss ≡ some s
    → (before : List PlanStep) × (after : List PlanStep) × (ss ≡ before ++ s ∷ after)
      × All (λ q. q.status ≢ running) before
      × (s.status ≡ running)
unfolding find_where
first_running [] s h = cc
first_running (q ∷ ss) s h = elim (Bool-cases (is_running q.status)) [
  | inl e ↦
      let found : some q ≡ some s = rw e at h in
      let same : q ≡ s = ground arith in
      (
        [],
        ss,
        ap (λ x. x ∷ ss) same,
        tt,
        running-eq s.status (subst (λ x. is_running x.status ≡ true) same e),
      )
  | inr e ↦
      let (before, after, cut, idle, runs) = first_running ss s (rw e at h) in
      (q ∷ before, after, ap (λ x. q ∷ x) cut, (not_running q.status e, idle), runs)
]

planned-eq-some :
    (id : String) (o : Option PlanRow) (ss : List PlanStep) (p : Plan)
    → ((r : PlanRow) → o ≡ some r → r.request_id ≡ id)
    → planned o ss ≡ some p
    → (p.request_id ≡ id) × (p.steps ≡ ss)
planned-eq-some id none ss p h e = cc
planned-eq-some id (some r) ss p h e = let own = h r refl in ground arith

get_plan-eq-some :
    (db : Db) (id : String) (p : Plan)
    → get_plan db id ≡ some p
    → (p.request_id ≡ id) × (p.steps ≡ steps_of id db.plan_steps)
get_plan-eq-some db id p e =
    planned-eq-some id (find_where (plan_of id) db.plans) (steps_of id db.plan_steps) p
      (find_where-id id db.plans) (rw (get_plan_lem db id) at e)

module _ (now : ℕ) (db : Db) (id error : String) where
  -- The answer, the plan of the request, and the other plans.
  abbrev pub IsReplanned : Replan × Db → Type 0
  IsReplanned x =
      PlanChange error (get_plan db id) x.0 (get_plan x.1 id)
      × ((q : String) → str_eq id q ≡ false → get_plan x.1 q ≡ get_plan db q)

  replan_at-IsReplanned :
      (p : Plan) (o : Option PlanStep)
      → get_plan db id ≡ some p
      → is_distinct p.steps ≡ true
      → find_where (λ s. is_running s.status) p.steps ≡ o
      → IsReplanned (replan_at now db id error p o)
  replan_at-IsReplanned p none e h f = (rw e (nothing_runs (no_running p.steps f)), λ q d. refl)
  replan_at-IsReplanned p (some s) e h f =
      let steps' = map (replan_step s.id error) p.steps in
      let stored = update_plan_lem now db id p.goal steps' in
      let distinct : is_distinct steps' ≡ true =
        rw (is_distinct-replan_step s.id error p.steps) h in
      let own = get_plan-eq-some db id p e in
      let (before, after, cut, idle, runs) = first_running p.steps s f in
      (
        rw (stored.0, stored.1, distinct, e, ← own.0)
            (step_fails before after s steps' cut idle runs (map-StepChange s.id error p.steps)),
        stored.2,
      )

  with_plan :
      (p : Plan)
      → get_plan db id ≡ some p
      → replan_on_failure now db id error
        ≡ replan_at now db id error p (find_where (λ s. is_running s.status) p.steps)
  unfolding replan_on_failure
  with_plan p e = ap (replan now db id error) e

  -- Without a plan or a running step `replanOnFailure` changes nothing and says so. Otherwise the
  -- first running step is stored as failed with the error, each pending step that depends on it as
  -- blocked with a note, and each other step as it was, under the plan's goal and status; the
  -- answer is this plan, as active. No other plan changes. The key of `plan_steps` holds for the
  -- request before.
  pub replan_on_failure_lem :
      is_distinct (steps_of id db.plan_steps) ≡ true
      → IsReplanned (replan_on_failure now db id error)
  unfolding replan_on_failure
  replan_on_failure_lem h = elim (Option-cases (get_plan db id)) [
    | inl e ↦ rw e (rw e no_plan, λ q d. refl)
    | inr (p, e) ↦ rw (with_plan p e) (
        replan_at-IsReplanned p (find_where (λ s. is_running s.status) p.steps) e
          (rw ((get_plan-eq-some db id p e).1) h) refl)
  ]
