-- ===== src/Web/Requests/Steps/Bounds.antt =====
-- How many requests are active: of one lane, and of the service.
use eveai.Base.{
  ℕ, ◌≤◌, ◌<◌, ◌≡◌, refl, String, Bool, true, ◌&&◌, List, [], ◌∷◌, ◌++◌, ◌==◌, int_eq, int_eq_iff,
  arith, Bool-cases, ◌⊎◌, inl, inr, count_where, count_where-append, &&-eq-true,
}
use eveai.Web.Requests.Rows.{RequestRow, Owner, in_lane, is_active, is_active_in}
use eveai.Web.Requests.Rows.Moves.{Advance, Evolves, added, kept, dropped}
use eveai.Web.Requests.State.{Config, Coordinator}
use eveai.Web.Requests.Queue.{EnqueueInput, new_row, schedule_drain, enqueue}
use eveai.Web.Requests.Steps.{Event, enqueues, Surroundings, step, run}
use eveai.Web.Requests.Steps.Moves.{step-Moved}

-- A test that holds of a row later only if it held before counts no more rows later.
pub count-Evolves :
    {c : Bool} (p : RequestRow → Bool)
    → ((r r' : RequestRow) → Advance c r r' → p r' ≡ true → p r ≡ true)
    → {l : RequestRow → Bool} {rs rs' : List RequestRow} → Evolves c l [] rs rs'
    → count_where p rs' ≤ count_where p rs
unfolding count_where
count-Evolves p back added = omega arith
count-Evolves p back (kept {r} {r'} a h) = ground (arith, back r r' a, count-Evolves p back h)
count-Evolves p back (dropped e h) = ground (arith, count-Evolves p back h)

is_active-Advance :
    {c : Bool} (r r' : RequestRow)
    → Advance c r r'
    → is_active r'.status ≡ true
    → is_active r.status ≡ true
is_active-Advance r r' a h = let path = a.status in ground arith

is_active_in-Advance :
    {c : Bool} (o : Owner) (r r' : RequestRow)
    → Advance c r r'
    → is_active_in o r' ≡ true
    → is_active_in o r ≡ true
is_active_in-Advance o r r' a h =
    let (lane, active) = &&-eq-true (in_lane o r') (is_active r'.status) h in
    let lane' : in_lane o r ≡ true = rw (a.same.user_id, a.same.chat_id) at lane in
    rw (is_active-Advance r r' a active) (rw lane' refl)

abbrev pub is_pending : RequestRow → Bool
is_pending r = is_active r.status

pub record IsBounded (c : Config) (rs : List RequestRow) : Type 0 where
  pub lane : (o : Owner) → count_where (is_active_in o) rs ≤ c.max_queued_agent_requests_per_user
  pub service : count_where is_pending rs ≤ c.max_queued_agent_requests

-- A call adds its row only below both limits.
enqueue_fits :
    (hash_message : String → String → String) (c : Config) (s : Coordinator) (i : EnqueueInput)
    (now : ℕ) (request_id : String)
    → ((enqueue hash_message c s i now request_id).1.requests ≡ s.requests)
      ⊎ (((enqueue hash_message c s i now request_id).1.requests
            ≡ s.requests ++ new_row (hash_message i.thread_id i.message) i now request_id ∷ [])
          × (count_where (is_active_in i.owner) s.requests < c.max_queued_agent_requests_per_user)
          × (count_where is_pending s.requests < c.max_queued_agent_requests))
unfolding enqueue schedule_drain
enqueue_fits hash_message c s i now request_id = ground arith

same_owner : (o p : Owner) → (p.user_id == o.user_id && int_eq p.chat_id o.chat_id) ≡ true → p ≡ o
same_owner o p h = ground (arith, int_eq_iff p.chat_id o.chat_id)

append-IsBounded :
    (c : Config) (rs : List RequestRow) (hash : String) (i : EnqueueInput) (now : ℕ)
    (request_id : String)
    → IsBounded c rs
    → count_where (is_active_in i.owner) rs < c.max_queued_agent_requests_per_user
    → count_where is_pending rs < c.max_queued_agent_requests
    → IsBounded c (rs ++ new_row hash i now request_id ∷ [])
unfolding count_where
append-IsBounded c rs hash i now request_id h lane service =
    let row = new_row hash i now request_id in
    record {
      lane = λ o. elim (Bool-cases (in_lane o row)) [
        | inl hit ↦
            rw (← same_owner o i.owner hit)
              (ground (arith, count_where-append (is_active_in i.owner) rs (row ∷ [])))
        | inr miss ↦
            rw (count_where-append (is_active_in o) rs (row ∷ []))
              (rw miss (omega (arith, h.lane o)))
      ];
      service = omega (arith, count_where-append is_pending rs (row ∷ []));
    }

Evolves-IsBounded :
    {k : Bool} {l : RequestRow → Bool} (c : Config) (rs rs' : List RequestRow)
    → Evolves k l [] rs rs'
    → IsBounded c rs
    → IsBounded c rs'
Evolves-IsBounded c rs rs' e h = record {
  lane = λ o. omega (arith, h.lane o, count-Evolves (is_active_in o) (is_active_in-Advance o) e);
  service = omega (arith, h.service, count-Evolves is_pending is_active-Advance e);
}

step-IsBounded :
    (w : Surroundings) (clock : ℕ) (s : Coordinator) (e : Event)
    → IsBounded w.config s.requests
    → IsBounded w.config (step w clock s e).requests
unfolding step
step-IsBounded w clock s (enqueues i now id) h =
    elim (enqueue_fits w.hash_message w.config s i now id) [
      | inl e ↦ rw e h
      | inr (e, lane, service) ↦
          rw e (append-IsBounded w.config s.requests _ i now id h lane service)
    ]
step-IsBounded w clock s e h =
    Evolves-IsBounded w.config s.requests _ (step-Moved w clock s e refl).evolves h

-- From a table within the limits, after any events: of each lane at most
-- `maxQueuedAgentRequestsPerUser` requests are queued or running, and of the whole service at most
-- `maxQueuedAgentRequests`.
pub run-IsBounded :
    (w : Surroundings) (s : Coordinator) (es : List (ℕ × Event))
    → IsBounded w.config s.requests
    → IsBounded w.config (run w s es).requests
unfolding run
run-IsBounded w s [] h = h
run-IsBounded w s ((clock, e) ∷ es) h =
    run-IsBounded w (step w clock s e) es (step-IsBounded w clock s e h)
