-- ===== src/Web/Requests/State.antt =====
-- The state of `WebAgentRequestCoordinator` (src/web/agent-requests.ts) and of the tables that it
-- writes, and the terminal write `finish` with what it calls.
-- The map `running` is the list of its entries; an entry's `settled` says that the promise of its
-- `execute` is settled, so that only the `finally` that removes the entry is due. The map of the
-- stream buffers is the list of its entries, and a timer is whether it is set.
use eveai.Base.{
  ℕ, String, Bool, true, false, ◌&&◌, Option, none, some, List, [], ◌∷◌, ltb, str_eq, if◌then◌else◌,
  count_where, find_where, delete_where, exists_where,
}
use eveai.Web.Admission.{Limits, AdmissionEvent}
use eveai.Web.Requests.Rows.{
  Text, RequestStatus, ErrorCode, RequestRow, FinishStatus, completed, cancelled, status_eq,
  may_finish, mark_finished, late_cancel, write_stream_text,
}

pub data Role : Type 0 where
  user assistant : Role

pub record Message : Type 0 where
  pub id : ℕ
  pub thread_id : String
  pub role : Role
  pub content : String
  pub web_request_id : Option String

pub record UserRow : Type 0 where
  pub user_id : ℕ
  pub active_character_id : Option ℕ
  pub active_character_version : ℕ

pub record Run : Type 0 where
  pub request_id : String
  pub aborted : Bool
  pub settled : Bool

pub record StreamBuffer : Type 0 where
  pub request_id : String
  pub text : Text
  pub capped : Bool
  pub timer : Bool

pub record Config : Type 0 where
  pub limits : Limits
  pub max_queued_agent_requests_per_user : ℕ
  pub max_queued_agent_requests : ℕ
  pub max_concurrent_agent_requests : ℕ
  pub request_retention_days : ℕ

pub record Coordinator : Type 0 where
  pub requests : List RequestRow
  pub messages : List Message
  pub last_message_id : ℕ
  pub events : List AdmissionEvent
  pub users : List UserRow
  pub running : List Run
  pub stream_buffers : List StreamBuffer
  pub draining : Bool
  pub closed : Bool

abbrev pub has_id : String → RequestRow → Bool
has_id id r = str_eq r.request_id id

abbrev pub is_buffer : String → StreamBuffer → Bool
is_buffer id b = str_eq b.request_id id

abbrev pub is_run : String → Run → Bool
is_run id x = str_eq x.request_id id

abbrev pub is_message_of : String → Message → Bool
is_message_of id m = elim m.web_request_id [ none ↦ false | some w ↦ str_eq w id ]

abbrev is_cancelled : String → RequestRow → Bool
is_cancelled id r = str_eq r.request_id id && status_eq r.status RequestStatus.cancelled

-- `deleteCancelledMessages`
unfoldable pub delete_cancelled_messages : Coordinator → String → Coordinator
delete_cancelled_messages s id =
    if exists_where (is_cancelled id) s.requests
    then record s { messages = delete_where (is_message_of id) s.messages }
    else s

-- `SELECT id FROM messages WHERE web_request_id = ? AND role = 'assistant' ORDER BY id DESC LIMIT 1`
abbrev is_assistant : Role → Bool
is_assistant user = false
is_assistant assistant = true

abbrev later_id : Option ℕ → ℕ → ℕ
later_id none id = id
later_id (some other) id = if ltb id other then other else id

unfoldable pub last_answer : String → List Message → Option ℕ
last_answer id [] = none
last_answer id (m ∷ ms) =
    let rest = last_answer id ms in
    if is_message_of id m && is_assistant m.role then some (later_id rest m.id) else rest

abbrev is_empty : Text → Bool
is_empty [] = true
is_empty (c ∷ t) = false

-- The write of a buffer's text, if it has any.
unfoldable pub flush_text : ℕ → String → Option StreamBuffer → List RequestRow → List RequestRow
flush_text clock id none rs = rs
flush_text clock id (some b) rs =
    if is_empty b.text then rs else write_stream_text clock id b.text rs

-- The forced final flush of `finish`.
unfoldable pub drop_buffer : ℕ → Coordinator → String → Coordinator
unfolding flush_text
drop_buffer clock s id = record s {
  requests = flush_text clock id (find_where (is_buffer id) s.stream_buffers) s.requests;
  stream_buffers = delete_where (is_buffer id) s.stream_buffers;
}

-- The answer's message, which is looked for on completion only.
abbrev pub answer_of : FinishStatus → String → List Message → Option ℕ
answer_of completed id ms = last_answer id ms
answer_of _ id ms = none

abbrev is_cancellation : FinishStatus → Bool
is_cancellation cancelled = true
is_cancellation _ = false

-- The terminal write of `finish`, behind the flush.
unfoldable pub commit :
    ℕ → Coordinator → String → FinishStatus → Option String → Option ErrorCode → Coordinator
unfolding delete_cancelled_messages
commit clock s id st result error =
    let answer = answer_of st id s.messages in
    let s' = record s { requests = mark_finished clock id st result answer error s.requests } in
    if ltb 0 (count_where (may_finish id st) s.requests)
    then (if is_cancellation st then delete_cancelled_messages s' id else s')
    else if is_cancellation st
    then delete_cancelled_messages s' id
    else delete_cancelled_messages (record s' { requests = late_cancel clock id s'.requests }) id

unfoldable pub finish :
    ℕ → Coordinator → String → FinishStatus → Option String → Option ErrorCode → Coordinator
unfolding drop_buffer commit
finish clock s id st result error = commit clock (drop_buffer clock s id) id st result error
