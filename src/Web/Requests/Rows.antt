-- ===== src/Web/Requests/Rows.antt =====
-- The table `web_agent_requests` of src/web/agent-requests.ts, and the UPDATE statements that the
-- coordinator runs on it, each as a function on the list of rows in rowid order.
-- Texts that the code cuts (`slice`, `length`) are lists of UTF-16 code units, other texts are
-- strings. `activity_json` is the decoded list. `datetime('now')` is an argument, in seconds.
pub mod Moves
pub mod Lawful
use eveai.Base.{
  ℕ, ◌+◌, ◌*◌, ◌-◌, String, Bool, true, false, not, ◌&&◌, ◌||◌, Option, none, some, List, [], ◌∷◌,
  ◌++◌, ℤ, int_eq, ◌==◌, str_eq, if◌then◌else◌, length, take, drop, update_where,
}

abbrev pub Text : Type 0
Text = List ℕ

pub data RequestStatus : Type 0 where
  queued running completed failed cancelled : RequestStatus

pub data ErrorCode : Type 0 where
  was_cancelled service_restarted identity_changed deadline_exceeded : ErrorCode
  overloaded provider_unavailable agent_failure : ErrorCode

pub record ActivityItem : Type 0 where
  pub name : Text
  pub detail : Option Text

pub record RequestRow : Type 0 where
  pub request_id : String
  pub user_id : ℕ
  pub chat_id : ℤ
  pub thread_id : String
  pub character_id : Option ℕ
  pub character_version : ℕ
  pub message : String
  pub message_hash : String
  pub idempotency_key : String
  pub status : RequestStatus
  pub activity : List ActivityItem
  pub progress_sequence : ℕ
  pub stream_text : Text
  pub result_text : Option String
  pub assistant_message_id : Option ℕ
  pub error_code : Option ErrorCode
  pub cancel_requested : Bool
  pub cost_reserved : ℕ
  pub cost_actual : ℕ
  pub created_at_ms : ℕ
  pub created_at : ℕ
  pub started_at : Option ℕ
  pub heartbeat_at : Option ℕ
  pub lease_expires_at : Option ℕ
  pub finished_at : Option ℕ
  pub updated_at : ℕ

pub record Owner : Type 0 where
  pub user_id : ℕ
  pub chat_id : ℤ

abbrev pub max_activity_items : ℕ
max_activity_items = 32

abbrev pub max_activity_detail_chars : ℕ
max_activity_detail_chars = 160

abbrev pub max_stream_text_chars : ℕ
max_stream_text_chars = 64 * 1024

abbrev pub request_cost_units : ℕ
request_cost_units = 4

abbrev pub status_eq : RequestStatus → RequestStatus → Bool
status_eq queued queued = true
status_eq running running = true
status_eq completed completed = true
status_eq failed failed = true
status_eq cancelled cancelled = true
status_eq _ _ = false

-- `status IN ('queued', 'running')`
abbrev pub is_active : RequestStatus → Bool
is_active queued = true
is_active running = true
is_active _ = false

abbrev pub in_lane : Owner → RequestRow → Bool
in_lane o r = r.user_id == o.user_id && int_eq r.chat_id o.chat_id

abbrev pub is_running : String → RequestRow → Bool
is_running id r = str_eq r.request_id id && status_eq r.status running

abbrev pub is_queued : String → RequestRow → Bool
is_queued id r = str_eq r.request_id id && status_eq r.status queued

abbrev pub is_active_in : Owner → RequestRow → Bool
is_active_in owner r = in_lane owner r && is_active r.status

abbrev pub is_interrupted : RequestRow → Bool
is_interrupted r = status_eq r.status running

-- `WHERE request_id = ? AND status = 'running' AND cancel_requested = 0`
abbrev pub is_streaming : String → RequestRow → Bool
is_streaming id r = is_running id r && not r.cancel_requested

-- `WHERE request_id = ? AND status = 'running' AND cancel_requested = 1`
abbrev pub is_cancelling : String → RequestRow → Bool
is_cancelling id r = is_running id r && r.cancel_requested

-- `values.slice(-n)`
abbrev pub take_last {ℓ} : {A : Type ℓ} → ℕ → List A → List A
take_last n xs = drop (length xs - n) xs

-- The statement of `cancel` for a queued request.
abbrev pub set_cancelled : ℕ → RequestRow → RequestRow
set_cancelled clock r = record r {
  status = cancelled;
  cancel_requested = true;
  error_code = some was_cancelled;
  progress_sequence = r.progress_sequence + 1;
  finished_at = some clock;
  updated_at = clock;
}

unfoldable pub cancel_queued : ℕ → String → List RequestRow → List RequestRow
unfolding update_where
cancel_queued clock id = update_where (is_queued id) (set_cancelled clock)

-- The statement of `cancel` for a running request.
abbrev pub set_cancel_requested : ℕ → RequestRow → RequestRow
set_cancel_requested clock r = record r { cancel_requested = true; updated_at = clock }

unfoldable pub request_cancel : ℕ → String → List RequestRow → List RequestRow
unfolding update_where
request_cancel clock id = update_where (is_running id) (set_cancel_requested clock)

-- The statement of `cancelLaneAndWait` behind its deadline.
abbrev pub set_force_cancelled : ℕ → RequestRow → RequestRow
set_force_cancelled clock r = record r {
  status = cancelled;
  error_code = some was_cancelled;
  cancel_requested = true;
  progress_sequence = r.progress_sequence + 1;
  finished_at = some clock;
  lease_expires_at = none;
  updated_at = clock;
}

unfoldable pub force_cancel : ℕ → Owner → List RequestRow → List RequestRow
unfolding update_where
force_cancel clock owner = update_where (is_active_in owner) (set_force_cancelled clock)

-- The statement of `recoverAfterRestart` on the rows that the previous process left running.
abbrev pub set_interrupted : ℕ → RequestRow → RequestRow
set_interrupted clock r = record r {
  status = failed;
  error_code = some service_restarted;
  cost_actual = 0;
  progress_sequence = r.progress_sequence + 1;
  finished_at = some clock;
  updated_at = clock;
  lease_expires_at = none;
}

unfoldable pub fail_interrupted : ℕ → List RequestRow → List RequestRow
unfolding update_where
fail_interrupted clock = update_where is_interrupted (set_interrupted clock)

abbrev pub is_claimable : String → RequestRow → Bool
is_claimable id r = str_eq r.request_id id && (status_eq r.status queued && not r.cancel_requested)

-- The statement of `claimNext`.
abbrev pub set_running : ℕ → RequestRow → RequestRow
set_running clock r = record r {
  status = running;
  started_at = some clock;
  heartbeat_at = some clock;
  progress_sequence = r.progress_sequence + 1;
  lease_expires_at = some (clock + 45);
  updated_at = clock;
}

unfoldable pub mark_running : ℕ → String → List RequestRow → List RequestRow
unfolding update_where
mark_running clock id = update_where (is_claimable id) (set_running clock)

-- The statement of the heartbeat timer.
abbrev pub set_lease : ℕ → RequestRow → RequestRow
set_lease clock r = record r {
  heartbeat_at = some clock;
  lease_expires_at = some (clock + 45);
  updated_at = clock;
}

unfoldable pub renew_lease : ℕ → String → List RequestRow → List RequestRow
unfolding update_where
renew_lease clock id = update_where (is_running id) (set_lease clock)

-- The statement of `recordActivity`; the list is cut to its last items.
abbrev pub set_activity : ℕ → List ActivityItem → RequestRow → RequestRow
set_activity clock activity r = record r {
  activity = take_last max_activity_items activity;
  progress_sequence = r.progress_sequence + 1;
  updated_at = clock;
}

unfoldable pub store_activity : ℕ → String → List ActivityItem → List RequestRow → List RequestRow
unfolding update_where
store_activity clock id activity = update_where (is_running id) (set_activity clock activity)

-- `writeStreamText`
abbrev pub set_stream_text : ℕ → Text → RequestRow → RequestRow
set_stream_text clock text r = record r {
  stream_text = take max_stream_text_chars text;
  progress_sequence = r.progress_sequence + 1;
  updated_at = clock;
}

unfoldable pub write_stream_text : ℕ → String → Text → List RequestRow → List RequestRow
unfolding update_where
write_stream_text clock id text = update_where (is_streaming id) (set_stream_text clock text)

-- The statuses that `finish` takes.
pub data FinishStatus : Type 0 where
  completed failed cancelled : FinishStatus

abbrev pub status_of : FinishStatus → RequestStatus
status_of FinishStatus.completed = RequestStatus.completed
status_of FinishStatus.failed = RequestStatus.failed
status_of FinishStatus.cancelled = RequestStatus.cancelled

-- `WHERE request_id = ? AND status = 'running'` with the completion guard of `finish`.
abbrev pub may_finish : String → FinishStatus → RequestRow → Bool
may_finish id FinishStatus.cancelled r = is_running id r
may_finish id _ r = is_running id r && not r.cancel_requested

-- `CASE WHEN ? = 'completed' THEN cost_reserved ELSE 0 END`
abbrev pub cost_of : FinishStatus → RequestRow → ℕ
cost_of FinishStatus.completed r = r.cost_reserved
cost_of _ r = 0

-- The first statement of `finish`.
abbrev pub set_finished :
    ℕ → FinishStatus → Option String → Option ℕ → Option ErrorCode → RequestRow → RequestRow
set_finished clock st result assistant error r = record r {
  status = status_of st;
  result_text = result;
  assistant_message_id = assistant;
  error_code = error;
  progress_sequence = r.progress_sequence + 1;
  cost_actual = cost_of st r;
  finished_at = some clock;
  lease_expires_at = none;
  updated_at = clock;
}

unfoldable pub mark_finished :
    ℕ
    → String
    → FinishStatus
    → Option String
    → Option ℕ
    → Option ErrorCode
    → List RequestRow
    → List RequestRow
unfolding update_where
mark_finished clock id st result assistant error =
    update_where (may_finish id st) (set_finished clock st result assistant error)

-- The last statement of `finish`: a cancellation that came after the runner's last look wins.
abbrev pub set_late_cancelled : ℕ → RequestRow → RequestRow
set_late_cancelled clock r = record r {
  status = RequestStatus.cancelled;
  result_text = none;
  assistant_message_id = none;
  error_code = some was_cancelled;
  progress_sequence = r.progress_sequence + 1;
  cost_actual = 0;
  finished_at = some clock;
  lease_expires_at = none;
  updated_at = clock;
}

unfoldable pub late_cancel : ℕ → String → List RequestRow → List RequestRow
unfolding update_where
late_cancel clock id = update_where (is_cancelling id) (set_late_cancelled clock)
