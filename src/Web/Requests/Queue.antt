-- ===== src/Web/Requests/Queue.antt =====
-- What callers ask of the coordinator (src/web/agent-requests.ts): `enqueue`, `readOwned`,
-- `readActive`, `cancel`, `cancelLane` and the end of `cancelLaneAndWait`.
-- `hash_message` stands for SHA-256 over the thread id, a NUL and the message; the fresh UUID is an
-- argument. An INSERT that meets a taken primary key throws, and the transaction is rolled back.
use eveai.Base.{
  ℕ, ◌+◌, ◌/◌, String, Bool, true, false, not, ◌&&◌, ◌||◌, Option, none, some, List, [], ◌∷◌, ◌++◌,
  ltb, leb, str_eq, if◌then◌else◌, map, count_where, find_where, select_where, exists_where,
  update_where,
}
use eveai.Web.Admission.{AdmissionEvent, AdmissionInput, admitted, rejected, chat, admit_web_event}
use eveai.Web.Requests.Rows.{
  Text, ActivityItem, RequestStatus, queued, running, completed, cancelled, ErrorCode,
  was_cancelled, service_restarted, identity_changed, deadline_exceeded, overloaded,
  provider_unavailable, agent_failure, RequestRow, Owner, in_lane, is_active, is_active_in,
  status_eq, request_cost_units, max_activity_items, max_activity_detail_chars, take_last,
  cancel_queued, request_cancel, force_cancel,
}
use eveai.Web.Requests.State.{
  Message, user, Run, Config, Coordinator, has_id, is_run, delete_cancelled_messages,
}
use eveai.Base.{take, delete_where}

pub record RequestDto : Type 0 where
  pub request_id : String
  pub thread_id : String
  pub status : RequestStatus
  pub activity : List ActivityItem
  pub progress_sequence : ℕ
  pub stream_text : Text
  pub result : Option String
  pub error : Option String
  pub created_at : ℕ
  pub started_at : Option ℕ
  pub finished_at : Option ℕ
  pub retry_after_ms : ℕ

pub record EnqueueInput : Type 0 where
  pub owner : Owner
  pub thread_id : String
  pub character_id : Option ℕ
  pub character_version : ℕ
  pub message : String
  pub idempotency_key : String
  pub ip_key : String

-- `threw` is the constraint error of an INSERT.
pub data EnqueueResult : Type 0 where
  accepted : (request : Option RequestDto) (existing : Bool) → EnqueueResult
  refused : (status_code : ℕ) (error : String) (retry_after_seconds : ℕ) → EnqueueResult
  threw : EnqueueResult

abbrev pub public_error : Option ErrorCode → Option String
public_error none = none
public_error (some was_cancelled) = some "Запрос отменён."
public_error (some deadline_exceeded) =
    some "Запрос превысил безопасный лимит времени. Попробуйте разбить задачу."
public_error (some identity_changed) = some "Активный персонаж изменился. Повторите запрос."
public_error (some service_restarted) =
    some "Сервис перезапустился во время запроса. Повторите запрос."
public_error (some overloaded) = some "Сервис перегружен. Попробуйте позже."
public_error (some provider_unavailable) = some "Модель временно недоступна. Попробуйте позже."
public_error (some agent_failure) = some "Не удалось завершить запрос. Попробуйте ещё раз."

abbrev pub cut_detail : Option Text → Option Text
cut_detail none = none
cut_detail (some d) = some (take max_activity_detail_chars d)

-- `parseActivity` of a stored list.
unfoldable pub parse_activity : List ActivityItem → List ActivityItem
parse_activity items =
    map (λ i. record { name = take 80 i.name; detail = cut_detail i.detail })
      (take_last max_activity_items items)

unfoldable pub to_dto : RequestRow → RequestDto
unfolding parse_activity
to_dto r = record {
  request_id = r.request_id;
  thread_id = r.thread_id;
  status = r.status;
  activity = parse_activity r.activity;
  progress_sequence = r.progress_sequence;
  stream_text = r.stream_text;
  result = if status_eq r.status completed then r.result_text else none;
  error = public_error r.error_code;
  created_at = r.created_at;
  started_at = r.started_at;
  finished_at = r.finished_at;
  retry_after_ms = if is_active r.status then 1000 else 0;
}

abbrev pub is_owned : Owner → String → RequestRow → Bool
is_owned o id r = str_eq r.request_id id && in_lane o r

unfoldable pub read_owned : Coordinator → Owner → String → Option RequestDto
unfolding to_dto
read_owned s o id = elim (find_where (is_owned o id) s.requests) [
  | none ↦ none
  | some r ↦ some (to_dto r)
]

abbrev in_thread : Option String → RequestRow → Bool
in_thread none r = true
in_thread (some t) r = str_eq r.thread_id t

-- `ORDER BY created_at_ms DESC LIMIT 1`
newest : List RequestRow → Option RequestRow
newest [] = none
newest (r ∷ rs) = elim (newest rs) [
  | none ↦ some r
  | some other ↦ if ltb other.created_at_ms r.created_at_ms then some r else some other
]

unfoldable pub read_active : Coordinator → Owner → Option String → Option RequestDto
unfolding to_dto newest
read_active s o thread_id =
    elim (newest (select_where (λ r. is_active_in o r && in_thread thread_id r) s.requests)) [
      | none ↦ none
      | some r ↦ some (to_dto r)
    ]

abbrev pub same_key : EnqueueInput → RequestRow → Bool
same_key i r = in_lane i.owner r && str_eq r.idempotency_key i.idempotency_key

abbrev pub admission_input : EnqueueInput → AdmissionInput
admission_input i = record {
  event_kind = chat;
  user_id = some i.owner.user_id;
  ip_key = i.ip_key;
  cost_units = request_cost_units;
}

abbrev pub new_message : Coordinator → EnqueueInput → String → Message
new_message s i request_id = record {
  id = s.last_message_id + 1;
  thread_id = i.thread_id;
  role = user;
  content = i.message;
  web_request_id = some request_id;
}

abbrev pub new_row : (message_hash : String) → EnqueueInput → (now : ℕ) → String → RequestRow
new_row message_hash i now request_id = record {
  request_id = request_id;
  user_id = i.owner.user_id;
  chat_id = i.owner.chat_id;
  thread_id = i.thread_id;
  character_id = i.character_id;
  character_version = i.character_version;
  message = i.message;
  message_hash = message_hash;
  idempotency_key = i.idempotency_key;
  status = queued;
  activity = [];
  progress_sequence = 0;
  stream_text = [];
  result_text = none;
  assistant_message_id = none;
  error_code = none;
  cancel_requested = false;
  cost_reserved = request_cost_units;
  cost_actual = 0;
  created_at_ms = now;
  created_at = now / 1000;
  started_at = none;
  heartbeat_at = none;
  lease_expires_at = none;
  finished_at = none;
  updated_at = now / 1000;
}

-- `scheduleDrain`: a microtask is queued exactly while `draining`.
unfoldable pub schedule_drain : Coordinator → Coordinator
schedule_drain s = if s.closed || s.draining then s else record s { draining = true }

abbrev pub is_taken : Coordinator → String → Bool
is_taken s request_id =
    exists_where (has_id request_id) s.requests
    || exists_where (λ (e : AdmissionEvent). str_eq e.event_id request_id) s.events

-- The writes of an admitted request.
unfoldable pub insert_request :
    Coordinator → List AdmissionEvent → EnqueueInput → RequestRow → Coordinator
insert_request s events i row = record s {
  events = events;
  messages = s.messages ++ new_message s i row.request_id ∷ [];
  last_message_id = s.last_message_id + 1;
  requests = s.requests ++ row ∷ [];
}

-- The transaction's part behind the limits on active requests.
unfoldable pub admit_request :
    Config → Coordinator → EnqueueInput → RequestRow → EnqueueResult × Coordinator
unfolding insert_request
admit_request c s i row =
    let (decision, events) =
      admit_web_event c.limits s.events (admission_input i) row.created_at_ms row.request_id in
    elim decision [
      | rejected code error retry ↦ (refused code error retry, s)
      | admitted ↦
          let s' = insert_request s events i row in
          if is_taken s row.request_id
          then (threw, s)
          else (accepted (read_owned s' i.owner row.request_id) false, schedule_drain s')
    ]

-- The limits on active requests, of the lane and of the service.
unfoldable pub queue_request :
    Config → Coordinator → EnqueueInput → RequestRow → EnqueueResult × Coordinator
unfolding admit_request
queue_request c s i row =
    if leb c.max_queued_agent_requests_per_user (count_where (is_active_in i.owner) s.requests)
    then (refused 429 "Предыдущий запрос ещё обрабатывается. Дождитесь результата." 5, s)
    else if leb c.max_queued_agent_requests (count_where (λ r. is_active r.status) s.requests)
    then (refused 503 "Очередь сервиса заполнена. Попробуйте позже." 15, s)
    else admit_request c s i row

-- The answer to a key that is in use.
abbrev pub repeat_request : (message_hash : String) → EnqueueInput → RequestRow → EnqueueResult
repeat_request message_hash i existing =
    if not (str_eq existing.thread_id i.thread_id)
      || not (str_eq existing.message_hash message_hash)
    then refused 409 "Ключ повторной отправки уже использован другим запросом." 0
    else accepted (some (to_dto existing)) true

unfoldable pub enqueue :
    (hash_message : String → String → String)
    → Config
    → Coordinator
    → EnqueueInput
    → (now : ℕ) → (request_id : String) → EnqueueResult × Coordinator
unfolding queue_request
enqueue hash_message c s i now request_id =
    let message_hash = hash_message i.thread_id i.message in
    if s.closed
    then (refused 503 "Сервис перезапускается. Повторите запрос через несколько секунд." 5, s)
    else elim (find_where (same_key i) s.requests) [
      | some existing ↦ (repeat_request message_hash i existing, s)
      | none ↦ queue_request c s i (new_row message_hash i now request_id)
    ]

-- `AbortController.abort` on the entry of a running turn.
abbrev pub abort_run : Run → Run
abort_run x = record x { aborted = true }

-- The transaction of `cancel` on the row that it read.
unfoldable pub cancel_row : ℕ → Coordinator → RequestRow → Coordinator
cancel_row clock s r =
    if status_eq r.status queued
    then delete_cancelled_messages
        (record s { requests = cancel_queued clock r.request_id s.requests }) r.request_id
    else if status_eq r.status running
    then record s { requests = request_cancel clock r.request_id s.requests }
    else s

unfoldable pub cancel : ℕ → Coordinator → Owner → String → Option RequestDto × Coordinator
unfolding cancel_row
cancel clock s o id = elim (find_where (is_owned o id) s.requests) [
  | none ↦ (none, s)
  | some r ↦
      let s' = cancel_row clock s r in
      let s'' = record s' { running = update_where (is_run id) abort_run s'.running } in
      (read_owned s'' o id, s'')
]

unfoldable pub cancel_all : ℕ → Coordinator → Owner → List RequestRow → Coordinator
unfolding cancel
cancel_all clock s o [] = s
cancel_all clock s o (r ∷ rs) = cancel_all clock (cancel clock s o r.request_id).1 o rs

unfoldable pub cancel_lane : ℕ → Coordinator → Owner → Coordinator
unfolding cancel_all
cancel_lane clock s o = cancel_all clock s o (select_where (is_active_in o) s.requests)

-- A message of a cancelled request of the lane.
abbrev pub is_cancelled_in : Owner → RequestRow → Bool
is_cancelled_in o r = in_lane o r && status_eq r.status cancelled

abbrev pub is_lane_message : Owner → List RequestRow → Message → Bool
is_lane_message o rs m = elim m.web_request_id [
  | none ↦ false
  | some id ↦ exists_where (λ r. has_id id r && is_cancelled_in o r) rs
]

-- The transaction of `cancelLaneAndWait` when the lane has not come to rest by the deadline.
unfoldable pub force_cancel_lane : ℕ → Coordinator → Owner → Coordinator
force_cancel_lane clock s o =
    let requests = force_cancel clock o s.requests in
    record s {
      requests = requests;
      messages = delete_where (is_lane_message o requests) s.messages;
    }
