-- ===== src/Web/Requests/Steps.antt =====
-- The life of the coordinator as a sequence of events: the calls of the web routes, the callbacks
-- of its timers, the settling of its promises, and what the runner and the user do to the tables.
-- A timer of a turn is cleared when the turn ends, and a `finally` follows its promise.
pub mod Lawful
pub mod Execution
pub mod Moves
pub mod History
pub mod Retries
pub mod Bounds
pub mod Conversations
pub mod Saturation
use eveai.Base.{
  ℕ, ◌+◌, ◌/◌, String, Bool, true, false, not, ◌&&◌, Option, none, some, List, [], ◌∷◌, ◌++◌, ◌==◌,
  if◌then◌else◌, find_where, update_where, exists_where,
}
use eveai.Web.Requests.Rows.{Owner, renew_lease}
use eveai.Web.Requests.State.{assistant, Run, UserRow, Config, Coordinator, is_run}
use eveai.Web.Requests.Queue.{
  EnqueueInput, enqueue, abort_run, cancel, cancel_lane, force_cancel_lane,
}
use eveai.Web.Requests.Execution.{
  RunnerResult, AgentActivity, drain_microtask, runner_settled, run_finally, record_activity,
  flush_stream_text, close_ingress, close, start,
}

pub data Event : Type 0 where
  enqueues : EnqueueInput → (now : ℕ) → (request_id : String) → Event
  cancels : Owner → (request_id : String) → Event
  cancels_lane : Owner → Event
  forces_lane : Owner → Event
  closes_ingress : Event
  closes : Event
  starts : (now : ℕ) → Event
  drains : Event
  beats : (request_id : String) → Event
  overruns : (request_id : String) → Event
  reports : (request_id : String) → AgentActivity → Event
  flushes : (request_id : String) → Event
  settles : (request_id : String) → RunnerResult → Event
  finalizes : (request_id : String) → Event
  answers : (thread_id request_id content : String) → Event
  switches : (user_id : ℕ) (character : Option ℕ) (version : ℕ) → Event

-- The turn's timers are set and its promise is open.
abbrev pub is_executing : String → Run → Bool
is_executing id x = is_run id x && not x.settled

abbrev pub is_over : String → Run → Bool
is_over id x = is_run id x && x.settled

-- The heartbeat of a turn.
unfoldable pub heartbeat : ℕ → Coordinator → String → Coordinator
heartbeat clock s id =
    if exists_where (is_executing id) s.running
    then record s { requests = renew_lease clock id s.requests }
    else s

-- The row that the runner writes with its answer.
abbrev insert_answer : Coordinator → (thread_id request_id content : String) → Coordinator
insert_answer s thread_id id content = record s {
  messages =
      s.messages
      ++ record {
        id = s.last_message_id + 1;
        thread_id = thread_id;
        role = assistant;
        content = content;
        web_request_id = some id;
      }
        ∷ [];
  last_message_id = s.last_message_id + 1;
}

abbrev switch_character : Coordinator → ℕ → Option ℕ → ℕ → Coordinator
switch_character s user_id character version = record s {
  users =
      update_where (λ (u : UserRow). u.user_id == user_id)
        (λ u. record u { active_character_id = character; active_character_version = version })
        s.users;
}

-- What the code takes from its surroundings.
pub record Surroundings : Type 0 where
  pub config : Config
  pub hash_message : String → String → String
  pub to_lower : String → String

unfoldable pub step : Surroundings → (clock : ℕ) → Coordinator → Event → Coordinator
unfolding heartbeat
step w clock s (enqueues i now id) = (enqueue w.hash_message w.config s i now id).1
step w clock s (cancels o id) = (cancel clock s o id).1
step w clock s (cancels_lane o) = cancel_lane clock s o
step w clock s (forces_lane o) = force_cancel_lane clock s o
step w clock s closes_ingress = close_ingress s
step w clock s closes = close clock s
step w clock s (starts now) = start w.config now s
step w clock s drains = drain_microtask clock w.config s
step w clock s (beats id) = heartbeat clock s id
step w clock s (overruns id) = record s {
  running = update_where (is_executing id) abort_run s.running;
}
step w clock s (reports id a) = record_activity clock s id a
step w clock s (flushes id) = flush_stream_text clock s id
step w clock s (settles id r) = elim (find_where (is_executing id) s.running) [
  | none ↦ s
  | some x ↦ runner_settled w.to_lower clock s x r
]
step w clock s (finalizes id) = if exists_where (is_over id) s.running then run_finally s id else s
step w clock s (answers t id content) = insert_answer s t id content
step w clock s (switches u ch v) = switch_character s u ch v

-- Each event comes with the clock's reading.
unfoldable pub run : Surroundings → Coordinator → List (ℕ × Event) → Coordinator
unfolding step
run w s [] = s
run w s ((clock, e) ∷ es) = run w (step w clock s e) es
