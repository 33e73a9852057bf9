-- ===== src/Web/Requests/Examples.antt =====
-- Small histories of the coordinator, and instances of its theorems.
use eveai.Base.{
  ◌≤◌, ◌⊎◌, length, none, ℕ, ◌≡◌, refl, String, Bool, true, false, some, List, [], ◌∷◌, negsuc, All,
  arith, map, sum_of, exists_where, count_where, find_where, select_where, update_where,
  delete_where, put_by,
}
use eveai.Web.Admission.{
  admit_web_event, user_requests_full, recent, global_requests_full, user_budget_spent,
  global_budget_spent, ip_requests_full,
}
use eveai.Web.Requests.Rows.{
  RequestRow, Owner, RequestStatus, request_cancel, mark_running, mark_finished,
}
use eveai.Web.Requests.Rows.Moves.{IsWellFormed}
use eveai.Web.Requests.State.{last_answer, finish, Config, Coordinator}
use eveai.Web.Requests.Queue.{
  accepted, new_row, same_key, to_dto, EnqueueResult, EnqueueInput, enqueue, cancel, schedule_drain,
  read_owned,
}
use eveai.Web.Requests.Execution.{
  answered, claim_next, drain_loop, candidate, drain_microtask, runner_settled, run_finally,
}
use eveai.Web.Requests.Steps.{
  Event, enqueues, cancels, starts, drains, settles, finalizes, Surroundings, run,
}
use eveai.Web.Requests.Steps.History.{Evolution, run-Evolution, run-IsWellFormed}
use eveai.Web.Requests.Steps.Bounds.{IsBounded, run-IsBounded}
use eveai.Web.Requests.Steps.Retries.{enqueue_again}
use eveai.Web.Requests.Steps.Saturation.{IsFresh, drain_loop-saturates}
use eveai.Web.Requests.Steps.Conversations.{IsUnique, IsOrderly, run-IsOrderly}

abbrev config : Config
config = record {
  limits = record {
    request_window_seconds = 60;
    max_requests_per_user_window = 6;
    max_requests_global_window = 120;
    max_requests_global_day = 10000;
    max_cost_units_per_user_window = 24;
    max_cost_units_global_window = 480;
    max_cost_units_global_day = 40000;
    session_creation_window_seconds = 60;
    max_session_creations_per_window = 5;
  };
  max_queued_agent_requests_per_user = 5;
  max_queued_agent_requests = 64;
  max_concurrent_agent_requests = 2;
  request_retention_days = 7;
}

abbrev world : Surroundings
world = record { config = config; hash_message = λ t m. m; to_lower = λ m. m }

abbrev pilot : Owner
pilot = record { user_id = 1; chat_id = negsuc 41 }

abbrev asks : String → EnqueueInput
asks key = record {
  owner = pilot;
  thread_id = "t";
  character_id = some 9;
  character_version = 3;
  message = "o7";
  idempotency_key = key;
  ip_key = "ip";
}

abbrev empty : Coordinator
empty = record {
  requests = [];
  messages = [];
  last_message_id = 0;
  events = [];
  users = record { user_id = 1; active_character_id = some 9; active_character_version = 3 } ∷ [];
  running = [];
  stream_buffers = [];
  draining = false;
  closed = false;
}

abbrev history : List (ℕ × Event)
history =
    (1, enqueues (asks "k") 1000 "r")
    ∷ (1, enqueues (asks "l") 1500 "q")
    ∷ (2, drains)
    ∷ (3, cancels pilot "r")
    ∷ (4, settles "r" (answered "fly safe"))
    ∷ (4, finalizes "r")
    ∷ (4, drains)
    ∷ []

-- When a new process starts, the first request of `history` is past the retention.
abbrev restart : List (ℕ × Event)
restart =
    (604801, starts 604801200) ∷ (604802, enqueues (asks "m") 604802000 "p") ∷ (604802, drains) ∷ []

run-Evolution_example : Evolution world (run world empty history) restart
run-Evolution_example = run-Evolution world (run world empty history) restart

run-IsWellFormed_example : All IsWellFormed (run world empty history).requests
run-IsWellFormed_example = run-IsWellFormed world empty history tt

run-IsBounded_example : IsBounded config (run world empty history).requests
unfolding count_where
run-IsBounded_example =
    run-IsBounded world empty history (record { lane = λ o. omega arith; service = omega arith })

run-IsOrderly_example : IsOrderly (run world empty history).requests
unfolding count_where
run-IsOrderly_example =
    run-IsOrderly world empty history
      (record { unique = λ id. omega arith; serial = λ q. omega arith })

abbrev first_call : EnqueueResult × Coordinator
first_call = enqueue (λ t m. m) config empty (asks "k") 1000 "r"

enqueue_again_example :
    (x : RequestRow) × (find_where (same_key (asks "k")) first_call.1.requests ≡ some x)
    × (enqueue (λ t m. m) config first_call.1 (asks "k") 5000 "other"
        ≡ (accepted (some (to_dto x)) true, first_call.1))
unfolding enqueue schedule_drain admit_web_event user_requests_full recent sum_of
    global_requests_full user_budget_spent global_budget_spent ip_requests_full exists_where
    count_where find_where read_owned
enqueue_again_example =
    enqueue_again (λ t m. m) config (asks "k") empty 1000 5000 "r" "other" _ false refl

-- A request waits, and both slots are free.
abbrev waiting : Coordinator
waiting = record empty { requests = new_row "o7" (asks "k") 1000 "r" ∷ [] }

waiting-IsUnique : IsUnique waiting.requests
unfolding count_where
waiting-IsUnique id = ground arith

waiting-IsFresh : IsFresh waiting
unfolding exists_where
waiting-IsFresh id h = cc

drain_loop-saturates_example :
    (2 ≤ length (drain_loop 1 config 2 waiting).running)
    ⊎ (claim_next 1 (drain_loop 1 config 2 waiting) ≡ none)
drain_loop-saturates_example =
    drain_loop-saturates 1 config 2 waiting waiting-IsUnique waiting-IsFresh (omega arith)

-- The first request is cancelled while it runs, so the answer that comes is dropped, and the next
-- request of the conversation starts only then.
statuses :
    map {B = String × RequestStatus × Bool}
      (λ r. (r.request_id, r.status, r.cancel_requested))
      (run world empty history).requests
    ≡ ("r", RequestStatus.cancelled, true) ∷ ("q", RequestStatus.running, false) ∷ []
unfolding run enqueue cancel drain_microtask runner_settled run_finally schedule_drain
    admit_web_event user_requests_full recent sum_of global_requests_full user_budget_spent
    global_budget_spent ip_requests_full exists_where count_where find_where select_where
    update_where delete_where put_by last_answer read_owned request_cancel mark_running
    mark_finished candidate finish
statuses = refl
