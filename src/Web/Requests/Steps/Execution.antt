-- ===== src/Web/Requests/Steps/Execution.antt =====
-- The claims, the drain, the turns and the restart move the table of requests lawfully.
use eveai.Base.{
  ℕ, zero, suc, ◌/◌, ◌+◌, ◌*◌, not, ◌&&◌, Bool, ◌≡◌, refl, String, true, false, none, some, [], ◌∷◌,
  ◌++◌, arith, ltb, Bool-cases, Option-cases, inl, inr, find_where, length, take,
}
use eveai.Web.Admission.{day_ms}
use eveai.Web.Requests.Rows.{
  RequestRow, is_running, queued, failed, completed, cancelled, was_cancelled, deadline_exceeded,
  mark_running, status_eq, is_interrupted, set_interrupted, fail_interrupted,
}
use eveai.Web.Requests.Rows.Moves.{
  IsLawful, IsLawful-refl, IsLawful-trans, IsLawful-weaken, Moved, Moved-update_delete,
}
use eveai.Web.Requests.Rows.Lawful.{mark_running-IsLawful, store_activity-IsLawful}
use eveai.Web.Requests.State.{Run, Config, Coordinator, is_buffer, has_id}
use eveai.Web.Requests.Queue.{schedule_drain, parse_activity}
use eveai.Web.Requests.Execution.{
  RunnerResult, answered, errored, AgentActivity, text_delta, tool_start, other_activity,
  claim_next, candidate, start_run, drain_loop, drain_microtask, runner_settled, event_detail,
  recover_after_restart, safe_error_code, record_tool_start, record_activity, flush_stream_text,
  close, start, is_expired, has_identity,
}
use eveai.Web.Requests.Steps.Lawful.{flush_text-IsLawful, flush_all-IsLawful, end_run-IsLawful}

-- What a successful claim has found and done.
pub claim_next-eq-some :
    (clock : ℕ) (s : Coordinator) (r : RequestRow) (s' : Coordinator)
    → claim_next clock s ≡ some (r, s')
    → (q : RequestRow) × (candidate s.requests ≡ some q)
      × (s' ≡ record s { requests = mark_running clock q.request_id s.requests })
      × (find_where (has_id q.request_id) (mark_running clock q.request_id s.requests) ≡ some r)
unfolding claim_next
claim_next-eq-some clock s r s' h = elim (Option-cases (candidate s.requests)) [
  | inl e ↦ absurd (let x = rw (e, claim_next) at h in cc)
  | inr (q, e) ↦
      let x = rw (e, claim_next) at h in
      elim (Option-cases
        (find_where (has_id q.request_id) (mark_running clock q.request_id s.requests))) [
          | inl f ↦ absurd (let y = rw f at x in cc)
          | inr (r', f) ↦ let y = rw f at x in (q, e, cc, cc)
        ]
]

pub claim_next-IsLawful :
    (clock : ℕ) (s : Coordinator) (r : RequestRow) (s' : Coordinator)
    → claim_next clock s ≡ some (r, s')
    → IsLawful true s.requests s'.requests
claim_next-IsLawful clock s r s' h =
    let (q, found, marked, read) = claim_next-eq-some clock s r s' h in
    rw marked (mark_running-IsLawful clock q.request_id s.requests)

pub start_run-IsLawful :
    (clock : ℕ) (s : Coordinator) (r : RequestRow)
    → IsLawful false s.requests (start_run clock s r).requests
unfolding start_run
start_run-IsLawful clock s r = elim (Bool-cases (has_identity s.users r)) [
  | inl e ↦ rw (e, start_run) (IsLawful-refl s.requests)
  | inr e ↦ rw (e, start_run) (end_run-IsLawful clock _ r.request_id failed none _ (refl, refl))
]

drain_loop-IsLawful :
    (clock : ℕ) (c : Config) (fuel : ℕ) (s : Coordinator)
    → IsLawful true s.requests (drain_loop clock c fuel s).requests
unfolding drain_loop
drain_loop-IsLawful clock c zero s = IsLawful-refl s.requests
drain_loop-IsLawful clock c (suc fuel) s =
    elim (Bool-cases (ltb (length s.running) c.max_concurrent_agent_requests)) [
      | inl free ↦ elim (Option-cases (claim_next clock s)) [
        | inl e ↦ rw (free, e, drain_loop) (IsLawful-refl s.requests)
        | inr ((r, s'), e) ↦
            rw (free, e, drain_loop)
              (IsLawful-trans (claim_next-IsLawful clock s r s' e) (
                IsLawful-trans (IsLawful-weaken (start_run-IsLawful clock s' r))
                  (drain_loop-IsLawful clock c fuel (start_run clock s' r))))
      ]
      | inr full ↦ rw (full, drain_loop) (IsLawful-refl s.requests)
    ]

pub drain_microtask-IsLawful :
    (clock : ℕ) (c : Config) (s : Coordinator)
    → IsLawful true s.requests (drain_microtask clock c s).requests
unfolding drain_microtask
drain_microtask-IsLawful clock c s = ground (
  arith,
  IsLawful-refl {c = true} s.requests,
  drain_loop-IsLawful clock c c.max_concurrent_agent_requests (record s { draining = false }),
)

pub runner_settled-IsLawful :
    (to_lower : String → String) (clock : ℕ) (s : Coordinator) (x : Run) (result : RunnerResult)
    → IsLawful false s.requests (runner_settled to_lower clock s x result).requests
unfolding runner_settled
runner_settled-IsLawful to_lower clock s x (answered answer) = ground (
  arith,
  end_run-IsLawful clock s x.request_id cancelled none (some was_cancelled) (refl, refl),
  end_run-IsLawful clock s x.request_id completed (some answer) none refl,
)
runner_settled-IsLawful to_lower clock s x (errored message normalized) =
    let code = safe_error_code (to_lower normalized) in
    ground (
      arith,
      end_run-IsLawful clock s x.request_id cancelled none (some was_cancelled) (refl, refl),
      end_run-IsLawful clock s x.request_id failed none (some deadline_exceeded) (refl, refl),
      end_run-IsLawful clock s x.request_id failed none (some code) (refl, refl),
    )

pub record_activity-IsLawful :
    (clock : ℕ) (s : Coordinator) (id : String) (a : AgentActivity)
    → IsLawful false s.requests (record_activity clock s id a).requests
unfolding record_activity
record_activity-IsLawful clock s id (text_delta text reset) = IsLawful-refl s.requests
record_activity-IsLawful clock s id (tool_start name detail) =
    elim (Option-cases (find_where (is_running id) s.requests)) [
      | inl e ↦ rw (e, record_tool_start) (IsLawful-refl s.requests)
      | inr (r, e) ↦
          rw (e, record_tool_start)
            (ground (
              arith,
              IsLawful-refl {c = false} s.requests,
              store_activity-IsLawful clock id s.requests (
                  parse_activity r.activity
                  ++ record { name = take 80 name; detail = event_detail detail } ∷ []),
            ))
    ]
record_activity-IsLawful clock s id other_activity = IsLawful-refl s.requests

pub flush_stream_text-IsLawful :
    (clock : ℕ) (s : Coordinator) (id : String)
    → IsLawful false s.requests (flush_stream_text clock s id).requests
unfolding flush_stream_text
flush_stream_text-IsLawful clock s id =
    elim (Option-cases (find_where (is_buffer id) s.stream_buffers)) [
      | inl e ↦ rw (e, flush_stream_text) (IsLawful-refl s.requests)
      | inr (b, e) ↦
          rw (e, flush_stream_text)
            (ground (
              arith,
              IsLawful-refl {c = false} s.requests,
              flush_text-IsLawful clock id (some b) s.requests,
            ))
    ]

pub close-IsLawful :
    (clock : ℕ) (s : Coordinator) → IsLawful false s.requests (close clock s).requests
unfolding close
close-IsLawful clock s = flush_all-IsLawful clock s.stream_buffers s.requests

schedule_drain-requests : (s : Coordinator) → (schedule_drain s).requests ≡ s.requests
unfolding schedule_drain
schedule_drain-requests s = ground arith

-- The rows that a restart takes out of the table: no queued one, and none within the retention.
abbrev pub leaves_at_start : Config → (now : ℕ) → RequestRow → Bool
leaves_at_start c now r =
    not (status_eq r.status queued) && ltb (r.created_at_ms + c.request_retention_days * day_ms) now

pub start-Moved :
    (c : Config) (now : ℕ) (s : Coordinator)
    → Moved false (leaves_at_start c now) s.requests (start c now s).requests
unfolding start recover_after_restart fail_interrupted
start-Moved c now s = rw schedule_drain-requests (
    Moved-update_delete is_interrupted (is_expired c now) (leaves_at_start c now)
      (set_interrupted (now / 1000)) (λ r h. (ground arith, λ w. ground arith)) (λ r. ground arith)
      s.requests)
