-- ===== src/Web/Admission.antt =====
-- src/web/web-admission.ts, and of src/web/web-session.ts the allowance for new sessions.
-- The table `web_admission_events` is the list of its rows. `created_at_ms >= now - span` is
-- written `now <= created_at_ms + span`, which is the same over the integers. `config.web` is a
-- record of the limits that are read, and the event id of the caller an argument.
pub mod Windows
pub mod NewRow
pub mod Runs
pub mod Outcomes
pub mod Examples
use eveai.Base.{
  ℕ, ◌+◌, ◌-◌, ◌*◌, ◌/◌, max, String, Bool, true, false, ◌&&◌, ◌||◌, Option, none, some, List, [],
  ◌∷◌, ◌++◌, ltb, leb, ◌==◌, if◌then◌else◌, str_eq, count_where, sum_of, delete_where,
}

pub data EventKind : Type 0 where
  session chat ai_search : EventKind

abbrev pub kind_eq : EventKind → EventKind → Bool
kind_eq session session = true
kind_eq chat chat = true
kind_eq ai_search ai_search = true
kind_eq _ _ = false

-- A row of `web_admission_events`.
pub record AdmissionEvent : Type 0 where
  pub event_id : String
  pub event_kind : EventKind
  pub user_id : Option ℕ
  pub ip_key : String
  pub cost_units : ℕ
  pub created_at_ms : ℕ

pub record AdmissionInput : Type 0 where
  pub event_kind : EventKind
  pub user_id : Option ℕ
  pub ip_key : String
  pub cost_units : ℕ

pub record Limits : Type 0 where
  pub request_window_seconds : ℕ
  pub max_requests_per_user_window : ℕ
  pub max_requests_global_window : ℕ
  pub max_requests_global_day : ℕ
  pub max_cost_units_per_user_window : ℕ
  pub max_cost_units_global_window : ℕ
  pub max_cost_units_global_day : ℕ
  pub session_creation_window_seconds : ℕ
  pub max_session_creations_per_window : ℕ

pub data Decision : Type 0 where
  admitted : Decision
  rejected : (status_code : ℕ) (error : String) (retry_after_seconds : ℕ) → Decision

abbrev pub day_ms : ℕ
day_ms = 86400000

abbrev pub window_ms : Limits → ℕ
window_ms c = c.request_window_seconds * 1000

abbrev pub too_many : String
too_many = "Слишком много запросов. Попробуйте позже."

abbrev pub load_limit : String
load_limit = "Сервис достиг безопасного лимита нагрузки. Попробуйте позже."

abbrev pub compute_spent : String
compute_spent = "Исчерпан лимит вычислений. Попробуйте позже."

abbrev pub compute_limit : String
compute_limit = "Сервис достиг безопасного лимита вычислений. Попробуйте позже."

-- SQL's `user_id = ?` at a bound id: a NULL column never matches.
abbrev pub user_is : ℕ → Option ℕ → Bool
user_is u none = false
user_is u (some v) = v == u

abbrev pub since : ℕ → ℕ → AdmissionEvent → Bool
since now span e = leb now (e.created_at_ms + span)

-- What one row adds to each count and sum that the function reads.
abbrev pub of_user : EventKind → ℕ → AdmissionEvent → ℕ
of_user k u e = if kind_eq e.event_kind k && user_is u e.user_id then 1 else 0

abbrev pub of_kind : EventKind → AdmissionEvent → ℕ
of_kind k e = if kind_eq e.event_kind k then 1 else 0

abbrev pub of_ip : EventKind → String → AdmissionEvent → ℕ
of_ip k ip e = if kind_eq e.event_kind k && str_eq e.ip_key ip then 1 else 0

abbrev pub user_units : ℕ → AdmissionEvent → ℕ
user_units u e = if user_is u e.user_id then e.cost_units else 0

abbrev pub units : AdmissionEvent → ℕ
units e = e.cost_units

-- The total of a weight over the rows that are not older than `span`. (A row without cost units
-- adds nothing to a sum, so the guard `cost_units > 0` of the sums is left out.)
unfoldable pub recent : (AdmissionEvent → ℕ) → ℕ → ℕ → List AdmissionEvent → ℕ
unfolding sum_of
recent w now span = sum_of (λ e. if since now span e then w e else 0)

-- The first of the checks: the requests of a signed-in user.
unfoldable pub user_requests_full : Limits → List AdmissionEvent → AdmissionInput → ℕ → Bool
user_requests_full c t i now = elim i.user_id [
  | none ↦ false
  | some u ↦
      leb c.max_requests_per_user_window (recent (of_user i.event_kind u) now (window_ms c) t)
]

unfoldable pub global_requests_full : Limits → List AdmissionEvent → AdmissionInput → ℕ → Bool
global_requests_full c t i now =
    leb c.max_requests_global_window (recent (of_kind i.event_kind) now (window_ms c) t)
    || leb c.max_requests_global_day (recent (of_kind i.event_kind) now day_ms t)

-- `userCost` is 0 for a caller without a user.
unfoldable pub user_cost : Limits → List AdmissionEvent → AdmissionInput → ℕ → ℕ
user_cost c t i now = elim i.user_id [
  | none ↦ 0
  | some u ↦ recent (user_units u) now (window_ms c) t
]

unfoldable pub user_budget_spent : Limits → List AdmissionEvent → AdmissionInput → ℕ → Bool
unfolding user_cost
user_budget_spent c t i now =
    ltb 0 i.cost_units && ltb c.max_cost_units_per_user_window (user_cost c t i now + i.cost_units)

unfoldable pub global_budget_spent : Limits → List AdmissionEvent → AdmissionInput → ℕ → Bool
global_budget_spent c t i now =
    ltb 0 i.cost_units
    && (ltb c.max_cost_units_global_window (recent units now (window_ms c) t + i.cost_units)
        || ltb c.max_cost_units_global_day (recent units now day_ms t + i.cost_units))

unfoldable pub ip_requests_full : Limits → List AdmissionEvent → AdmissionInput → ℕ → Bool
ip_requests_full c t i now =
    leb c.max_requests_global_window (recent (of_ip i.event_kind i.ip_key) now (window_ms c) t)

abbrev pub event_of : AdmissionInput → ℕ → String → AdmissionEvent
event_of i now event_id = record {
  event_id = event_id;
  event_kind = i.event_kind;
  user_id = i.user_id;
  ip_key = i.ip_key;
  cost_units = i.cost_units;
  created_at_ms = now;
}

-- The checks in the order of the code; the row is written only on admission.
unfoldable pub admit_web_event :
    Limits → List AdmissionEvent → AdmissionInput → ℕ → String → Decision × List AdmissionEvent
admit_web_event c t i now event_id =
    if user_requests_full c t i now
    then (rejected 429 too_many c.request_window_seconds, t)
    else if global_requests_full c t i now
    then (rejected 503 load_limit 60, t)
    else if user_budget_spent c t i now
    then (rejected 429 compute_spent 60, t)
    else if global_budget_spent c t i now
    then (rejected 503 compute_limit 60, t)
    else if ip_requests_full c t i now
    then (rejected 429 too_many c.request_window_seconds, t)
    else (admitted, t ++ event_of i now event_id ∷ [])

-- The row that `createWebSession` writes, with the fresh user's id.
abbrev pub session_event : ℕ → String → ℕ → String → AdmissionEvent
session_event user_id ip_key now event_id =
    event_of
      (record { event_kind = session; user_id = some user_id; ip_key = ip_key; cost_units = 0 }) now
      event_id

unfoldable pub record_session : List AdmissionEvent → ℕ → String → ℕ → String → List AdmissionEvent
record_session t user_id ip_key now event_id = t ++ session_event user_id ip_key now event_id ∷ []

-- `DELETE FROM web_admission_events WHERE created_at_ms < ?` of the restart.
unfoldable pub prune_events : ℕ → List AdmissionEvent → List AdmissionEvent
prune_events cutoff = delete_where (λ e. ltb e.created_at_ms cutoff)

-- What the program does to the table, at whatever times.
pub data Operation : Type 0 where
  admit : AdmissionInput → (now : ℕ) → (event_id : String) → Operation
  new_session : (user_id : ℕ) (ip_key : String) (now : ℕ) (event_id : String) → Operation
  prune : (cutoff : ℕ) → Operation

unfoldable pub step : Limits → List AdmissionEvent → Operation → List AdmissionEvent
step c t (admit i now event_id) = (admit_web_event c t i now event_id).1
step c t (new_session u ip now event_id) = record_session t u ip now event_id
step c t (prune cutoff) = prune_events cutoff t

unfoldable pub run : Limits → List AdmissionEvent → List Operation → List AdmissionEvent
unfolding step
run c t [] = t
run c t (o ∷ os) = run c (step c t o) os
