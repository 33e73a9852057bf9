-- ===== src/Agent/Plan.antt =====
-- src/agent/planner.ts and src/agent/replanner.ts: the plan of a request.
-- The tables `plans` and `plan_steps` (src/db/schema.ts) are the lists of their rows in rowid
-- order, with the primary keys request_id and (request_id, step_id). `depends_on_json` is the list
-- that it encodes, times are milliseconds, and a call that throws returns `threw` beside the
-- database as it is left. The column `kind` is always 'action', and is left out.
pub mod Rows
pub mod Turns
pub mod Restart
pub mod Inserts
pub mod Replacing
pub mod Changes
pub mod Replanning
pub mod Retention
pub mod Examples
use Prim.Native.String.{◌++◌ as str_append}
use eveai.Base.{
  ℕ, ◌+◌, ◌-◌, ◌*◌, ◌/◌, String, Bool, true, false, not, ◌&&◌, ◌||◌, Option, none, some, List, [],
  ◌∷◌, ◌++◌, map, ltb, if◌then◌else◌, str_eq, count_where, find_where, select_where, delete_where,
  update_where, exists_where, length,
}

pub data StepStatus : Type 0 where
  pending running done blocked failed : StepStatus

abbrev pub is_pending : StepStatus → Bool
is_pending pending = true
is_pending _ = false

abbrev pub is_running : StepStatus → Bool
is_running running = true
is_running _ = false

pub record PlanStep : Type 0 where
  pub id : String
  pub title : String
  pub status : StepStatus
  pub depends_on : List String
  pub notes : String

-- The texts that the code writes into the column `status` of `plans`.
pub data PlanStatus : Type 0 where
  active completed failed cancelled : PlanStatus

abbrev pub is_active : PlanStatus → Bool
is_active active = true
is_active _ = false

pub record Plan : Type 0 where
  pub request_id : String
  pub goal : String
  pub status : PlanStatus
  pub steps : List PlanStep

pub data PlanFailureCategory : Type 0 where
  provider_failure tool_discovery_protocol tool_discovery_budget tool_state_failure iteration_budget
        deadline_exceeded identity_changed cancelled orchestration_failure :
      PlanFailureCategory

pub record PlanRow : Type 0 where
  pub request_id : String
  pub goal : String
  pub status : PlanStatus
  pub created_at : ℕ
  pub updated_at : ℕ

pub record StepRow : Type 0 where
  pub request_id : String
  pub step : PlanStep

pub record Db : Type 0 where
  pub plans : List PlanRow
  pub plan_steps : List StepRow

pub data Outcome : Type 0 where
  returned : Plan → Outcome
  threw : Outcome

abbrev pub plan_of : String → PlanRow → Bool
plan_of id p = str_eq p.request_id id

abbrev pub step_of : String → StepRow → Bool
step_of id r = str_eq r.request_id id

abbrev pub has_step : String → String → StepRow → Bool
has_step id step_id r = str_eq r.request_id id && str_eq r.step.id step_id

-- `INSERT INTO plans ... ON CONFLICT(request_id) DO UPDATE SET goal, updated_at`
abbrev pub set_goal : ℕ → String → PlanRow → PlanRow
set_goal now goal p = record p { goal = goal; updated_at = now }

abbrev pub new_plan : ℕ → String → String → PlanRow
new_plan now id goal = record {
  request_id = id;
  goal = goal;
  status = active;
  created_at = now;
  updated_at = now;
}

unfoldable pub upsert_plan : ℕ → String → String → List PlanRow → List PlanRow
upsert_plan now id goal ps =
    if exists_where (plan_of id) ps
    then update_where (plan_of id) (set_goal now goal) ps
    else ps ++ new_plan now id goal ∷ []

-- The transaction `insertAll`, which the primary key stops at a step id that is in use.
unfoldable pub insert_all : String → List PlanStep → List StepRow → Option (List StepRow)
insert_all id [] rs = some rs
insert_all id (s ∷ steps) rs =
    let rest = insert_all id steps (rs ++ record { request_id = id; step = s } ∷ []) in
    if exists_where (has_step id s.id) rs then none else rest

-- What `updatePlan` returns and stores behind its inserts, which throw if a key is in use: the
-- upsert and the DELETE have committed by then, and the inserts roll back.
abbrev pub inserted : Plan → Db → Option (List StepRow) → Outcome × Db
inserted p db none = (threw, db)
inserted p db (some rows) = (returned p, record db { plan_steps = rows })

unfoldable pub update_plan : ℕ → Db → String → String → List PlanStep → Outcome × Db
unfolding upsert_plan
update_plan now db id goal steps =
    let db' : Db = record {
      plans = upsert_plan now id goal db.plans;
      plan_steps = delete_where (step_of id) db.plan_steps;
    } in
    inserted (record { request_id = id; goal = goal; status = active; steps = steps }) db'
      (insert_all id steps db'.plan_steps)

abbrev pub ms_per_day : ℕ
ms_per_day = 86400000

-- `created_at` is an ISO text 'YYYY-MM-DDT...', `datetime('now', ?)` gives 'YYYY-MM-DD ...', and
-- a space sorts before the 'T': the comparison of the texts is that of the days.
abbrev pub is_old : ℕ → ℕ → PlanRow → Bool
is_old now retention_days p =
    ltb (p.created_at / ms_per_day) ((now - retention_days * ms_per_day) / ms_per_day)

abbrev pub is_step_of_old : ℕ → ℕ → List PlanRow → StepRow → Bool
is_step_of_old now days ps r = exists_where (λ p. is_old now days p && plan_of r.request_id p) ps

unfoldable pub prune_plans : ℕ → Db → ℕ → ℕ × Db
prune_plans now db days = (
  count_where (is_step_of_old now days db.plans) db.plan_steps,
  record {
    plans = delete_where (is_old now days) db.plans;
    plan_steps = delete_where (is_step_of_old now days db.plans) db.plan_steps;
  },
)

-- The plan of a row that was found, and of the rows of its steps.
abbrev pub to_plan : Option PlanRow → List StepRow → Option Plan
to_plan none rs = none
to_plan (some p) rs = some (record {
  request_id = p.request_id;
  goal = p.goal;
  status = p.status;
  steps = map (λ r. r.step) rs;
})

unfoldable pub get_plan : Db → String → Option Plan
get_plan db id =
    to_plan (find_where (plan_of id) db.plans) (select_where (step_of id) db.plan_steps)

-- `CASE WHEN notes = '' THEN ? ELSE notes || ' | ' || ? END`
abbrev pub add_note : String → String → String
add_note note notes = if str_eq notes "" then note else str_append notes (str_append " | " note)

abbrev pub close_step : StepStatus → String → PlanStep → PlanStep
close_step st note s = record s { status = st; notes = add_note note s.notes }

abbrev pub category_name : PlanFailureCategory → String
category_name provider_failure = "provider_failure"
category_name tool_discovery_protocol = "tool_discovery_protocol"
category_name tool_discovery_budget = "tool_discovery_budget"
category_name tool_state_failure = "tool_state_failure"
category_name iteration_budget = "iteration_budget"
category_name deadline_exceeded = "deadline_exceeded"
category_name identity_changed = "identity_changed"
category_name cancelled = "cancelled"
category_name orchestration_failure = "orchestration_failure"

abbrev pub failure_note : PlanFailureCategory → String
failure_note category = str_append "Turn stopped: " (category_name category)

abbrev pub is_cancel : PlanFailureCategory → Bool
is_cancel PlanFailureCategory.cancelled = true
is_cancel identity_changed = true
is_cancel _ = false

-- `UPDATE plan_steps SET ... WHERE request_id = ? AND status = ?`
abbrev pub on_steps :
    String → (StepStatus → Bool) → (PlanStep → PlanStep) → List StepRow → List StepRow
on_steps id at f =
    update_where (λ r. step_of id r && at r.step.status) (λ r. record r { step = f r.step })

-- `UPDATE plans SET status = ?, updated_at = ? WHERE request_id = ?`
abbrev pub set_plan_status : ℕ → PlanStatus → PlanRow → PlanRow
set_plan_status now st p = record p { status = st; updated_at = now }

abbrev pub close_plan : ℕ → Db → String → PlanStatus → (PlanStep → PlanStep) → String → Db
close_plan now db id st end_running note = record {
  plans = update_where (plan_of id) (set_plan_status now st) db.plans;
  plan_steps =
      on_steps id is_pending (close_step blocked note)
        (on_steps id is_running end_running db.plan_steps);
}

unfoldable pub finalize_plan_failure : ℕ → Db → String → PlanFailureCategory → Option Plan × Db
unfolding get_plan
finalize_plan_failure now db id category =
    let note = failure_note category in
    let running_status = if is_cancel category then blocked else StepStatus.failed in
    let plan_status = if is_cancel category then PlanStatus.cancelled else PlanStatus.failed in
    elim (find_where (plan_of id) db.plans) [
      | none ↦ (none, db)
      | some _ ↦
          let db' = close_plan now db id plan_status (close_step running_status note) note in
          (get_plan db' id, db')
    ]

abbrev pub completion_note : String
completion_note = "Turn completed before this step was explicitly updated"

abbrev pub mark_done : PlanStep → PlanStep
mark_done s = record s { status = done }

unfoldable pub finalize_plan_completion : ℕ → Db → String → Option Plan × Db
unfolding get_plan
finalize_plan_completion now db id = elim (find_where (plan_of id) db.plans) [
  | none ↦ (none, db)
  | some _ ↦
      let db' = close_plan now db id completed mark_done completion_note in (get_plan db' id, db')
]

-- The `for` of `recoverInterruptedPlans`.
unfoldable pub fail_all : ℕ → Db → List String → Db
unfolding finalize_plan_failure
fail_all now db [] = db
fail_all now db (id ∷ ids) =
    fail_all now (finalize_plan_failure now db id orchestration_failure).1 ids

abbrev pub active_ids : List PlanRow → List String
active_ids ps = map (λ p. p.request_id) (select_where (λ p. is_active p.status) ps)

unfoldable pub recover_interrupted_plans : ℕ → Db → ℕ × Db
unfolding fail_all
recover_interrupted_plans now db =
    let ids = active_ids db.plans in (length ids, fail_all now db ids)

unfoldable pub includes : List String → String → Bool
includes [] id = false
includes (d ∷ ds) id = str_eq d id || includes ds id

-- `plan.steps.map` of `replanOnFailure`.
abbrev pub replan_step : String → String → PlanStep → PlanStep
replan_step failed_step_id error_message s =
    if str_eq s.id failed_step_id
    then record s { status = StepStatus.failed; notes = error_message }
    else if includes s.depends_on failed_step_id && is_pending s.status
    then record s {
      status = blocked;
      notes = str_append "Blocked: dependency " (str_append failed_step_id " failed");
    }
    else s

pub data Replan : Type 0 where
  replanned : Plan → Replan
  unchanged : Option Plan → Replan
  failed_to_store : Replan

abbrev replan_of : Outcome → Replan
replan_of (returned p) = replanned p
replan_of threw = failed_to_store

-- `replanOnFailure` behind its search for the running step, and behind `getPlan`.
abbrev pub replan_at : ℕ → Db → String → String → Plan → Option PlanStep → Replan × Db
replan_at now db id error_message p none = (unchanged (some p), db)
replan_at now db id error_message p (some s) =
    let (o, db') = update_plan now db id p.goal (map (replan_step s.id error_message) p.steps) in
    (replan_of o, db')

abbrev pub replan : ℕ → Db → String → String → Option Plan → Replan × Db
replan now db id error_message none = (unchanged none, db)
replan now db id error_message (some p) =
    replan_at now db id error_message p (find_where (λ s. is_running s.status) p.steps)

unfoldable pub replan_on_failure : ℕ → Db → String → String → Replan × Db
replan_on_failure now db id error_message = replan now db id error_message (get_plan db id)
