-- ===== src/Web/Requests/Steps/Moves.antt =====
-- How one event moves the table of requests.
use eveai.Base.{
  ℕ, ◌≡◌, String, Bool, true, false, [], ◌∷◌, ◌++◌, arith, if◌then◌else◌, Option-cases, ◌⊎◌, inl,
  inr, find_where, exists_where, select_where,
}
use eveai.Web.Requests.Rows.{RequestRow, Owner, is_active_in}
use eveai.Web.Requests.Rows.Moves.{IsLawful, IsLawful-refl, Moved, none_leave}
use eveai.Web.Requests.Rows.Lawful.{renew_lease-IsLawful, force_cancel-IsLawful}
use eveai.Web.Requests.State.{Config, Coordinator}
use eveai.Web.Requests.Queue.{
  EnqueueInput, new_row, schedule_drain, enqueue, cancel_lane, force_cancel_lane,
}
use eveai.Web.Requests.Execution.{run_finally}
use eveai.Web.Requests.Steps.{
  Event, enqueues, cancels, cancels_lane, forces_lane, closes_ingress, closes, starts, drains,
  beats, overruns, reports, flushes, settles, finalizes, answers, switches, is_executing, is_over,
  heartbeat, Surroundings, step,
}
use eveai.Web.Requests.Steps.Lawful.{cancel-IsLawful, cancel_all-IsLawful}
use eveai.Web.Requests.Steps.Execution.{
  drain_microtask-IsLawful, runner_settled-IsLawful, record_activity-IsLawful,
  flush_stream_text-IsLawful, close-IsLawful, start-Moved, leaves_at_start,
}

-- A call of `enqueue` adds its row at the end or leaves the table alone.
pub enqueue-requests :
    (hash_message : String → String → String) (c : Config) (s : Coordinator) (i : EnqueueInput)
    (now : ℕ) (request_id : String)
    → ((enqueue hash_message c s i now request_id).1.requests ≡ s.requests)
      ⊎ ((enqueue hash_message c s i now request_id).1.requests
          ≡ s.requests ++ new_row (hash_message i.thread_id i.message) i now request_id ∷ [])
unfolding enqueue schedule_drain
enqueue-requests hash_message c s i now request_id = ground arith

cancel_lane-IsLawful :
    (clock : ℕ) (s : Coordinator) (o : Owner)
    → IsLawful false s.requests (cancel_lane clock s o).requests
unfolding cancel_lane
cancel_lane-IsLawful clock s o =
    cancel_all-IsLawful clock s o (select_where (is_active_in o) s.requests)

heartbeat-IsLawful :
    (clock : ℕ) (s : Coordinator) (id : String)
    → IsLawful false s.requests (heartbeat clock s id).requests
unfolding heartbeat
heartbeat-IsLawful clock s id =
    ground (arith, IsLawful-refl {c = false} s.requests, renew_lease-IsLawful clock id s.requests)

finalize-requests :
    (s : Coordinator) (id : String)
    → (if exists_where (is_over id) s.running then run_finally s id else s).requests ≡ s.requests
unfolding run_finally schedule_drain
finalize-requests s id = ground arith

abbrev pub is_enqueue : Event → Bool
is_enqueue (enqueues i now id) = true
is_enqueue _ = false

abbrev pub is_drain : Event → Bool
is_drain drains = true
is_drain _ = false

-- The rows that an event may take out of the table: a restart alone does.
abbrev pub leaves_at : Config → Event → RequestRow → Bool
leaves_at c (starts now) = leaves_at_start c now
leaves_at c _ = none_leave

-- The row that a call of `enqueue` may add.
abbrev pub asked_row :
    (hash_message : String → String → String) → EnqueueInput → ℕ → String → RequestRow
asked_row hash_message i now request_id =
    new_row (hash_message i.thread_id i.message) i now request_id

-- Every event but a call of `enqueue` adds no row, and takes none out but at a restart.
pub step-Moved :
    (w : Surroundings) (clock : ℕ) (s : Coordinator) (e : Event)
    → is_enqueue e ≡ false
    → Moved (is_drain e) (leaves_at w.config e) s.requests (step w clock s e).requests
unfolding step
step-Moved w clock s (enqueues i now id) ne = cc
step-Moved w clock s (cancels o id) ne = (cancel-IsLawful clock s o id)
step-Moved w clock s (cancels_lane o) ne = (cancel_lane-IsLawful clock s o)
step-Moved w clock s (forces_lane o) ne =
    (unfold force_cancel_lane in force_cancel-IsLawful clock o s.requests)
step-Moved w clock s closes_ingress ne = (IsLawful-refl s.requests)
step-Moved w clock s closes ne = (close-IsLawful clock s)
step-Moved w clock s (starts now) ne = (start-Moved w.config now s)
step-Moved w clock s drains ne = (drain_microtask-IsLawful clock w.config s)
step-Moved w clock s (beats id) ne = (heartbeat-IsLawful clock s id)
step-Moved w clock s (overruns id) ne = (IsLawful-refl s.requests)
step-Moved w clock s (reports id a) ne = (record_activity-IsLawful clock s id a)
step-Moved w clock s (flushes id) ne = (flush_stream_text-IsLawful clock s id)
step-Moved w clock s (settles id r) ne =
    elim (Option-cases (find_where (is_executing id) s.running)) [
      | inl e ↦ rw (e, step) ((IsLawful-refl s.requests))
      | inr (x, e) ↦ rw (e, step) ((runner_settled-IsLawful w.to_lower clock s x r))
    ]
step-Moved w clock s (finalizes id) ne = rw (finalize-requests s id) ((IsLawful-refl s.requests))
step-Moved w clock s (answers t id content) ne = (IsLawful-refl s.requests)
step-Moved w clock s (switches u ch v) ne = (IsLawful-refl s.requests)
