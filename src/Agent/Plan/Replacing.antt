-- ===== src/Agent/Plan/Replacing.antt =====
-- `updatePlan`: the plan that replaces another.
use eveai.Base.{
  ℕ, ◌≡◌, refl, String, Bool, true, false, ◌++◌, Option, none, some, List, [], ◌∷◌, arith,
  Bool-cases, inl, inr, find_where, delete_where, str_eq, str_eq_refl, str_eq_iff, if◌then◌else◌,
  exists_where,
}
use mathlib.Core.List.{append-nil}
use eveai.Agent.Plan.{
  Db, Plan, PlanRow, PlanStep, PlanStatus, StepRow, returned, threw, plan_of, step_of, get_plan,
  active, set_goal, new_plan, upsert_plan, update_plan,
}
use eveai.Agent.Plan.Inserts.{
  is_distinct, rows_of, insert_all_lem, clashes_of_none, steps_of-rows_of, steps_of-rows_of_other,
}
use eveai.Agent.Plan.Rows.{
  steps_of, planned, get_plan_lem, find_where-update_plan, find_where-update_other, steps_of-delete,
  steps_of-delete_other, steps_of-append,
}

-- The row that the upsert leaves: the one that was there with the new goal, or a new one.
abbrev pub upserted : ℕ → String → String → Option PlanRow → PlanRow
upserted now id goal none = new_plan now id goal
upserted now id goal (some p) = set_goal now goal p

exists_where-find :
    (id : String) (ps : List PlanRow)
    → exists_where (plan_of id) ps ≡ false
    → find_where (plan_of id) ps ≡ none
unfolding exists_where find_where
exists_where-find id [] h = refl
exists_where-find id (p ∷ ps) h = ground (arith, exists_where-find id ps)

exists_where-found :
    (id : String) (ps : List PlanRow)
    → exists_where (plan_of id) ps ≡ true
    → (p : PlanRow) × (find_where (plan_of id) ps ≡ some p)
unfolding exists_where find_where
exists_where-found id [] h = cc
exists_where-found id (p ∷ ps) h = elim (Bool-cases (plan_of id p)) [
  | inl e ↦ (p, rw e refl)
  | inr e ↦ let rest = rw e at h in let (q, at) = exists_where-found id ps rest in (q, rw e at)
]

abbrev or_new : Option PlanRow → Bool → PlanRow → Option PlanRow
or_new none hit p = if hit then some p else none
or_new (some x) hit p = some x

find_where-append :
    (q : String) (ps : List PlanRow) (p : PlanRow)
    → find_where (plan_of q) (ps ++ p ∷ []) ≡ or_new (find_where (plan_of q) ps) (plan_of q p) p
unfolding find_where
find_where-append q [] p = refl
find_where-append q (x ∷ ps) p = elim (Bool-cases (plan_of q x)) [
  | inl e ↦ rw e refl
  | inr e ↦ rw e (find_where-append q ps p)
]

find_where-upsert_plan :
    (now : ℕ) (id goal : String) (ps : List PlanRow)
    → find_where (plan_of id) (upsert_plan now id goal ps)
      ≡ some (upserted now id goal (find_where (plan_of id) ps))
unfolding upsert_plan
find_where-upsert_plan now id goal ps = elim (Bool-cases (exists_where (plan_of id) ps)) [
  | inl e ↦
      let (p, at) = exists_where-found id ps e in
      rw (e, find_where-update_plan (set_goal now goal) (λ p. refl) id ps, at) refl
  | inr e ↦
      rw
        (
          e,
          find_where-append id ps (new_plan now id goal),
          exists_where-find id ps e,
          str_eq_refl id,
        )
        refl
]

or_new_none : (o : Option PlanRow) (p : PlanRow) → or_new o false p ≡ o
or_new_none none p = refl
or_new_none (some x) p = refl

find_where-upsert_plan_other :
    (now : ℕ) (q id goal : String) (ps : List PlanRow)
    → str_eq id q ≡ false
    → find_where (plan_of q) (upsert_plan now id goal ps) ≡ find_where (plan_of q) ps
unfolding upsert_plan
find_where-upsert_plan_other now q id goal ps h = elim (Bool-cases (exists_where (plan_of id) ps)) [
  | inl e ↦ rw (e, find_where-update_other (set_goal now goal) (λ p. refl) q id h ps) refl
  | inr e ↦
      rw (e, find_where-append q ps (new_plan now id goal), h)
        (or_new_none (find_where (plan_of q) ps) (new_plan now id goal))
]

pub find_where-id :
    (id : String) (ps : List PlanRow) (p : PlanRow)
    → find_where (plan_of id) ps ≡ some p
    → p.request_id ≡ id
unfolding find_where
find_where-id id [] p h = cc
find_where-id id (x ∷ ps) p h = elim (Bool-cases (plan_of id x)) [
  | inl e ↦
      let found : some x ≡ some p = rw e at h in
      let here = (str_eq_iff x.request_id id).0 e in ground arith
  | inr e ↦ find_where-id id ps p (rw e at h)
]

-- The status that a replacement keeps.
abbrev pub kept_status : Option Plan → PlanStatus
kept_status none = active
kept_status (some p) = p.status

planned-upserted :
    (now : ℕ) (id goal : String) (o : Option PlanRow) (old ss : List PlanStep)
    → ((p : PlanRow) → o ≡ some p → p.request_id ≡ id)
    → planned (some (upserted now id goal o)) ss
      ≡ some (record {
        request_id = id;
        goal = goal;
        status = kept_status (planned o old);
        steps = ss;
      })
planned-upserted now id goal none old ss h = refl
planned-upserted now id goal (some p) old ss h = rw (h p refl) refl

module _ (now : ℕ) (db : Db) (id goal : String) (steps : List PlanStep) where
  -- The rows of the steps behind the call.
  abbrev rows_after : List StepRow
  rows_after =
      let cleared = delete_where (step_of id) db.plan_steps in
      if is_distinct steps then cleared ++ rows_of id steps else cleared

  abbrev db_after : Db
  db_after = record { plans = upsert_plan now id goal db.plans; plan_steps = rows_after }

  update_plan-eq : update_plan now db id goal steps ≡ (
    if is_distinct steps
        then returned (record { request_id = id; goal = goal; status = active; steps = steps })
        else threw,
    db_after,
  )
  unfolding update_plan
  update_plan-eq = elim (Bool-cases (is_distinct steps)) [
    | inl e ↦
        rw
          (
            insert_all_lem id steps (delete_where (step_of id) db.plan_steps),
            clashes_of_none id steps db.plan_steps,
            e,
          )
          refl
    | inr e ↦ rw (insert_all_lem id steps (delete_where (step_of id) db.plan_steps), e) refl
  ]

  steps_of-rows_after : steps_of id rows_after ≡ (if is_distinct steps then steps else [])
  steps_of-rows_after = elim (Bool-cases (is_distinct steps)) [
    | inl e ↦
        rw
          (
            e,
            steps_of-append id (delete_where (step_of id) db.plan_steps) (rows_of id steps),
            steps_of-delete id db.plan_steps,
          )
          (steps_of-rows_of id steps)
    | inr e ↦ rw e (steps_of-delete id db.plan_steps)
  ]

  steps_of-rows_after_other :
      (q : String) → str_eq id q ≡ false → steps_of q rows_after ≡ steps_of q db.plan_steps
  steps_of-rows_after_other q h = elim (Bool-cases (is_distinct steps)) [
    | inl e ↦
        rw
          (
            e,
            steps_of-append q (delete_where (step_of id) db.plan_steps) (rows_of id steps),
            steps_of-rows_of_other q id h steps,
            append-nil (steps_of q (delete_where (step_of id) db.plan_steps)),
          )
          (steps_of-delete_other q id h db.plan_steps)
    | inr e ↦ rw e (steps_of-delete_other q id h db.plan_steps)
  ]

  -- A call whose step ids are distinct returns the new plan as active, and stores its goal and
  -- steps, in order, under the status that the plan had. A call with a step id twice throws, and
  -- leaves the new goal with no step. Every other plan reads as before.
  pub update_plan_lem :
      ((update_plan now db id goal steps).0 ≡ (
        if is_distinct steps
        then returned (record { request_id = id; goal = goal; status = active; steps = steps })
        else threw))
      × (get_plan (update_plan now db id goal steps).1 id
          ≡ some (record {
            request_id = id;
            goal = goal;
            status = kept_status (get_plan db id);
            steps = if is_distinct steps then steps else [];
          }))
      × ((q : String)
          → str_eq id q ≡ false
          → get_plan (update_plan now db id goal steps).1 q ≡ get_plan db q)
  update_plan_lem = rw update_plan-eq (
    refl,
    rw
        (
          get_plan_lem db_after id,
          get_plan_lem db id,
          steps_of-rows_after,
          find_where-upsert_plan now id goal db.plans,
        )
        (planned-upserted now id goal (find_where (plan_of id) db.plans) (steps_of id db.plan_steps)
          (if is_distinct steps then steps else []) (find_where-id id db.plans)),
    λ q h.
        rw
          (
            get_plan_lem db_after q,
            get_plan_lem db q,
            steps_of-rows_after_other q h,
            find_where-upsert_plan_other now q id goal db.plans h,
          )
          refl,
  )
