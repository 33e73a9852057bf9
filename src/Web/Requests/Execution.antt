-- ===== src/Web/Requests/Execution.antt =====
-- How the coordinator runs requests (src/web/agent-requests.ts): claims, the drain, the turn's end,
-- its progress, the shutdown and the restart. The runner, the timers and the users' own actions
-- are events of `Event`; `step` is what the coordinator does at one.
use eveai.Base.{
  ℕ, zero, suc, ◌+◌, ◌*◌, ◌-◌, ◌/◌, max, String, Bool, true, false, not, ◌&&◌, ◌||◌, Option, none,
  some, List, [], ◌∷◌, ◌++◌, ltb, ◌==◌, int_eq, str_eq, if◌then◌else◌, length, take, map,
  find_where, select_where, delete_where, exists_where, update_where, put_by,
}
use text.Mathlib.Text.{find?}
use eveai.Web.Admission.{day_ms, prune_events}
use eveai.Web.Requests.Rows.{
  Text, ActivityItem, queued, running, ErrorCode, was_cancelled, identity_changed,
  deadline_exceeded, overloaded, provider_unavailable, agent_failure, RequestRow, FinishStatus,
  completed, failed, cancelled, status_eq, is_active, is_running, max_activity_detail_chars,
  max_stream_text_chars, fail_interrupted, mark_running, store_activity,
}
use eveai.Web.Requests.State.{
  UserRow, Run, StreamBuffer, Config, Coordinator, has_id, is_run, is_buffer, flush_text, finish,
}
use eveai.Web.Requests.Queue.{schedule_drain, abort_run, parse_activity}

-- `running` of the same conversation as `queued`, in the candidate query of `claimNext`.
abbrev pub blocks : RequestRow → RequestRow → Bool
blocks q r =
    (r.user_id == q.user_id && int_eq r.chat_id q.chat_id)
    && (str_eq r.thread_id q.thread_id && status_eq r.status running)

abbrev pub is_candidate : List RequestRow → RequestRow → Bool
is_candidate rs q =
    (status_eq q.status queued && not q.cancel_requested) && not (exists_where (blocks q) rs)

-- `ORDER BY created_at_ms ASC LIMIT 1`
unfoldable pub oldest : List RequestRow → Option RequestRow
oldest [] = none
oldest (r ∷ rs) = elim (oldest rs) [
  | none ↦ some r
  | some other ↦ if ltb other.created_at_ms r.created_at_ms then some other else some r
]

unfoldable pub candidate : List RequestRow → Option RequestRow
unfolding oldest
candidate rs = oldest (select_where (is_candidate rs) rs)

-- The transaction of `claimNext`. (`request_id` is the primary key, so the UPDATE changes the one
-- row that the query found.)
unfoldable pub claim_next : ℕ → Coordinator → Option (RequestRow × Coordinator)
claim_next clock s = elim (candidate s.requests) [
  | none ↦ none
  | some q ↦
      let s' = record s { requests = mark_running clock q.request_id s.requests } in
      elim (find_where (has_id q.request_id) s'.requests) [ none ↦ none | some r ↦ some (r, s') ]
]

abbrev option_eq : Option ℕ → Option ℕ → Bool
option_eq none none = true
option_eq (some a) (some b) = a == b
option_eq _ _ = false

-- Is the user's active character still the one of the request?
unfoldable pub has_identity : List UserRow → RequestRow → Bool
has_identity users r = elim (find_where (λ (u : UserRow). u.user_id == r.user_id) users) [
  | none ↦ false
  | some u ↦
      option_eq u.active_character_id r.character_id
      && u.active_character_version == r.character_version
]

abbrev pub settle_run : Run → Run
settle_run x = record x { settled = true }

-- The end of `execute`: the entry stays until its `finally`.
unfoldable pub end_run :
    ℕ → Coordinator → String → FinishStatus → Option String → Option ErrorCode → Coordinator
end_run clock s id st result error =
    let s' = finish clock s id st result error in
    record s' { running = update_where (is_run id) settle_run s'.running }

abbrev pub new_run : String → Run
new_run id = record { request_id = id; aborted = false; settled = false }

-- One round of `drain`: the entry of the claimed row, and `execute` up to its first wait.
unfoldable pub start_run : ℕ → Coordinator → RequestRow → Coordinator
unfolding end_run has_identity
start_run clock s r =
    let s' = record s { running = put_by (is_run r.request_id) (new_run r.request_id) s.running } in
    if has_identity s'.users r
    then s'
    else end_run clock s' r.request_id failed none (some identity_changed)

-- The `while` loop of `drain`, on fuel.
unfoldable pub drain_loop : ℕ → Config → ℕ → Coordinator → Coordinator
unfolding start_run claim_next
drain_loop clock c zero s = s
drain_loop clock c (suc fuel) s = elim (ltb (length s.running) c.max_concurrent_agent_requests) [
  | false ↦ s
  | true ↦ elim (claim_next clock s) [
    | none ↦ s
    | some (r, s') ↦ drain_loop clock c fuel (start_run clock s' r)
  ]
]

unfoldable pub drain : ℕ → Config → Coordinator → Coordinator
unfolding drain_loop
drain clock c s = if s.closed then s else drain_loop clock c c.max_concurrent_agent_requests s

-- The microtask of `scheduleDrain`.
unfoldable pub drain_microtask : ℕ → Config → Coordinator → Coordinator
unfolding drain
drain_microtask clock c s = if s.draining then drain clock c (record s { draining = false }) else s

-- How the runner's promise is settled. An error has its message, and the message that
-- `normalizeAgentRuntimeError` (src/chat/shared.ts) makes of it.
pub data RunnerResult : Type 0 where
  answered : String → RunnerResult
  errored : (message normalized : String) → RunnerResult

abbrev pub turn_aborted_message : String
turn_aborted_message = "Turn aborted by user"

abbrev pub turn_deadline_message : String
turn_deadline_message = "Agent turn deadline exceeded"

abbrev includes : String → String → Bool
includes s t = elim (find? s t) [ none ↦ false | some i ↦ true ]

-- `safeErrorCode` of a message in lower case.
unfoldable pub safe_error_code : String → ErrorCode
safe_error_code message =
    if includes message "перегруж"
    then overloaded
    else if includes message "временно недоступ"
    then provider_unavailable
    else agent_failure

unfoldable pub cancel_was_requested : Coordinator → String → Bool
cancel_was_requested s id = elim (find_where (has_id id) s.requests) [
  | none ↦ false
  | some r ↦ r.cancel_requested
]

-- `execute` from the runner's answer or error to its end. `to_lower` is the language's.
unfoldable pub runner_settled :
    (to_lower : String → String) → ℕ → Coordinator → Run → RunnerResult → Coordinator
unfolding end_run cancel_was_requested safe_error_code
runner_settled to_lower clock s x (answered answer) =
    let id = x.request_id in
    if x.aborted || cancel_was_requested s id
    then end_run clock s id cancelled none (some was_cancelled)
    else end_run clock s id completed (some answer) none
runner_settled to_lower clock s x (errored message normalized) =
    let id = x.request_id in
    if x.aborted || (str_eq message turn_aborted_message || str_eq message turn_deadline_message)
    then if cancel_was_requested s id
      then end_run clock s id cancelled none (some was_cancelled)
      else end_run clock s id failed none (some deadline_exceeded)
    else end_run clock s id failed none (some (safe_error_code (to_lower normalized)))

-- The `finally` of the drain, once `execute` is settled.
unfoldable pub run_finally : Coordinator → String → Coordinator
run_finally s id = schedule_drain (record s { running = delete_where (is_run id) s.running })

-- What a runner reports.
pub data AgentActivity : Type 0 where
  text_delta : (text : Text) (reset : Bool) → AgentActivity
  tool_start : (name : Text) (detail : Option Text) → AgentActivity
  other_activity : AgentActivity

abbrev text_eq : Text → Text → Bool
text_eq [] [] = true
text_eq (a ∷ s) (b ∷ t) = a == b && text_eq s t
text_eq _ _ = false

abbrev detail_eq : Option Text → Option Text → Bool
detail_eq none none = true
detail_eq (some s) (some t) = text_eq s t
detail_eq _ _ = false

-- `event.detail ? … : {}`: an empty detail is none.
abbrev pub event_detail : Option Text → Option Text
event_detail none = none
event_detail (some []) = none
event_detail (some (c ∷ d)) = some (take max_activity_detail_chars (c ∷ d))

abbrev pub item_eq : ActivityItem → ActivityItem → Bool
item_eq a b = text_eq a.name b.name && detail_eq a.detail b.detail

unfoldable pub record_tool_start : ℕ → Coordinator → String → Text → Option Text → Coordinator
unfolding parse_activity
record_tool_start clock s id name detail = elim (find_where (is_running id) s.requests) [
  | none ↦ s
  | some r ↦
      let items = parse_activity r.activity in
      let next : ActivityItem = record { name = take 80 name; detail = event_detail detail } in
      if exists_where (item_eq next) items
      then s
      else record s { requests = store_activity clock id (items ++ next ∷ []) s.requests }
]

abbrev pub blank_buffer : String → StreamBuffer
blank_buffer id = record { request_id = id; text = []; capped = false; timer = false }

abbrev reset_buffer : Bool → StreamBuffer → StreamBuffer
reset_buffer reset b = if reset then record b { text = []; capped = false } else b

abbrev cap_buffer : StreamBuffer → StreamBuffer
cap_buffer b =
    if ltb max_stream_text_chars (length b.text)
    then record b { text = take max_stream_text_chars b.text; capped = true }
    else b

-- A delta past the cap is dropped.
abbrev extend_buffer : Text → StreamBuffer → StreamBuffer
extend_buffer text b = if b.capped then b else cap_buffer (record b { text = b.text ++ text })

abbrev or_blank : String → Option StreamBuffer → StreamBuffer
or_blank id none = blank_buffer id
or_blank id (some b) = b

-- `recordTextDelta`; the timer is set unless it was.
unfoldable pub record_text_delta : Coordinator → String → Text → Bool → Coordinator
record_text_delta s id text reset =
    let b = or_blank id (find_where (is_buffer id) s.stream_buffers) in
    let b' = extend_buffer text (reset_buffer reset b) in
    record s {
      stream_buffers = put_by (is_buffer id) (record b' { timer = true }) s.stream_buffers;
    }

unfoldable pub record_activity : ℕ → Coordinator → String → AgentActivity → Coordinator
unfolding record_tool_start record_text_delta
record_activity clock s id (text_delta text reset) = record_text_delta s id text reset
record_activity clock s id (tool_start name detail) = record_tool_start clock s id name detail
record_activity clock s id other_activity = s

-- The callback of a buffer's timer, `flushStreamText` included.
unfoldable pub flush_stream_text : ℕ → Coordinator → String → Coordinator
unfolding flush_text
flush_stream_text clock s id = elim (find_where (is_buffer id) s.stream_buffers) [
  | none ↦ s
  | some b ↦
      if b.timer
      then record s {
        stream_buffers =
            update_where (is_buffer id) (λ x. record x { timer = false }) s.stream_buffers;
        requests = flush_text clock id (some b) s.requests;
      }
      else s
]

unfoldable pub flush_all : ℕ → List StreamBuffer → List RequestRow → List RequestRow
unfolding flush_text
flush_all clock [] rs = rs
flush_all clock (b ∷ bs) rs = flush_all clock bs (flush_text clock b.request_id (some b) rs)

abbrev pub close_ingress : Coordinator → Coordinator
close_ingress s = record s { closed = true }

-- `close`, up to its wait for the running turns.
unfoldable pub close : ℕ → Coordinator → Coordinator
unfolding flush_all
close clock s = record s {
  closed = true;
  requests = flush_all clock s.stream_buffers s.requests;
  stream_buffers = [];
  running = map abort_run s.running;
}

-- `recoverAfterRestart`; `created_at_ms < now - span` is written `created_at_ms + span < now`.
abbrev pub is_expired : Config → ℕ → RequestRow → Bool
is_expired c now r =
    not (is_active r.status) && ltb (r.created_at_ms + c.request_retention_days * day_ms) now

unfoldable pub recover_after_restart : Config → ℕ → Coordinator → Coordinator
recover_after_restart c now s = record s {
  requests = delete_where (is_expired c now) (fail_interrupted (now / 1000) s.requests);
  events = prune_events (now - max 1 c.request_retention_days * day_ms) s.events;
}

-- The memory of a new process.
abbrev pub fresh_process : Coordinator → Coordinator
fresh_process s = record s { running = []; stream_buffers = []; draining = false; closed = false }

-- `start`, in a new process.
unfoldable pub start : Config → ℕ → Coordinator → Coordinator
unfolding recover_after_restart
start c now s = schedule_drain (recover_after_restart c now (fresh_process s))
