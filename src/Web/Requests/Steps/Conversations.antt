-- ===== src/Web/Requests/Steps/Conversations.antt =====
-- One turn at a time in each conversation, and no request id twice.
use eveai.Base.{
  ℕ, zero, suc, ◌+◌, ◌≤◌, ◌≡◌, refl, String, Bool, true, false, not, ◌&&◌, some, List, [], ◌∷◌,
  ◌++◌, ◌==◌, int_eq, int_eq_iff, str_eq, str_eq_iff, str_eq_refl, arith, ltb, Bool-cases,
  Option-cases, ◌⊎◌, inl, inr, count_where, count_where-append, select_where, exists_where,
  &&-eq-true, length,
}
use eveai.Web.Requests.Rows.{RequestRow, queued, status_eq, mark_running}
use eveai.Web.Requests.Rows.Moves.{Advance, Evolves, Moved}
use eveai.Web.Requests.State.{Config, Coordinator, has_id}
use eveai.Web.Requests.Queue.{EnqueueInput, new_row, enqueue, schedule_drain}
use eveai.Web.Requests.Execution.{
  blocks, is_candidate, oldest, candidate, claim_next, start_run, drain_loop, drain_microtask,
  drain,
}
use eveai.Web.Requests.Steps.{Event, enqueues, drains, Surroundings, step, run}
use eveai.Web.Requests.Steps.Moves.{step-Moved}
use eveai.Web.Requests.Steps.Execution.{claim_next-eq-some, claim_next-IsLawful, start_run-IsLawful}
use eveai.Web.Requests.Steps.Bounds.{count-Evolves}

not-eq-true : (b : Bool) → not b ≡ true → b ≡ false
not-eq-true b h = ground arith

module _ (p : RequestRow → Bool) where
  pub count_of_not_exists :
      (rs : List RequestRow) → exists_where p rs ≡ false → count_where p rs ≡ 0
  unfolding exists_where count_where
  count_of_not_exists [] h = refl
  count_of_not_exists (r ∷ rs) h = ground (arith, count_of_not_exists rs)

  -- A row that a query found is counted by every test that it passes.
  oldest-count :
      (q : RequestRow → Bool) (rs : List RequestRow) (r : RequestRow)
      → oldest (select_where q rs) ≡ some r
      → (q r ≡ true) × (p r ≡ true → 1 ≤ count_where p rs)
  unfolding oldest select_where count_where
  oldest-count q [] r h = cc
  oldest-count q (x ∷ rs) r h = elim (Bool-cases (q x)) [
    | inl hit ↦ let chosen = rw (hit, select_where) at h in ground (arith, oldest-count q rs r)
    | inr miss ↦ ground (arith, oldest-count q rs r)
  ]

  count-cut :
      (q : RequestRow → Bool) (rs : List RequestRow)
      → count_where (λ r. p r && q r) rs + count_where (λ r. p r && not (q r)) rs ≡ count_where p rs
  unfolding count_where
  count-cut q [] = refl
  count-cut q (r ∷ rs) = ground (arith, count-cut q rs)

abbrev pub IsUnique : List RequestRow → Type 0
IsUnique rs = (id : String) → count_where (has_id id) rs ≤ 1

-- At most one row of each conversation runs.
abbrev pub IsSerial : List RequestRow → Type 0
IsSerial rs = (q : RequestRow) → count_where (blocks q) rs ≤ 1

append-IsUnique :
    (rs : List RequestRow) (hash : String) (i : EnqueueInput) (now : ℕ) (request_id : String)
    → exists_where (has_id request_id) rs ≡ false
    → IsUnique rs
    → IsUnique (rs ++ new_row hash i now request_id ∷ [])
unfolding count_where
append-IsUnique rs hash i now request_id fresh h id =
    let row = new_row hash i now request_id in
    elim (Bool-cases (str_eq request_id id)) [
      | inl hit ↦ rw (count_where-append (has_id id) rs (row ∷ [])) (
          rw hit (
            omega (
              arith,
              count_of_not_exists (has_id id) rs (rw ((str_eq_iff request_id id).0 hit) at fresh),
            )))
      | inr miss ↦ rw (count_where-append (has_id id) rs (row ∷ [])) (rw miss (omega (arith, h id)))
    ]

-- A call adds its row only under a fresh id, and as a queued one.
enqueue_fresh :
    (hash_message : String → String → String) (c : Config) (s : Coordinator) (i : EnqueueInput)
    (now : ℕ) (request_id : String)
    → ((enqueue hash_message c s i now request_id).1.requests ≡ s.requests)
      ⊎ (((enqueue hash_message c s i now request_id).1.requests
            ≡ s.requests ++ new_row (hash_message i.thread_id i.message) i now request_id ∷ [])
          × (exists_where (has_id request_id) s.requests ≡ false))
unfolding enqueue schedule_drain
enqueue_fresh hash_message c s i now request_id = ground arith

has_id-Advance :
    {c : Bool} (id : String) (r r' : RequestRow)
    → Advance c r r'
    → has_id id r' ≡ true
    → has_id id r ≡ true
has_id-Advance id r r' a h = rw a.same.request_id at h

pub Evolves-IsUnique :
    {c : Bool} {l : RequestRow → Bool} {rs rs' : List RequestRow}
    → Evolves c l [] rs rs'
    → IsUnique rs
    → IsUnique rs'
Evolves-IsUnique e h id = omega (arith, h id, count-Evolves (has_id id) (has_id-Advance id) e)

blocks-Advance : (q r r' : RequestRow) → Advance false r r' → blocks q r' ≡ true → blocks q r ≡ true
blocks-Advance q r r' a h =
    let keep = a.calm refl in
    let h' = rw (a.same.user_id, a.same.chat_id, a.same.thread_id) at h in ground arith

Evolves-IsSerial :
    {l : RequestRow → Bool} {rs rs' : List RequestRow}
    → Evolves false l [] rs rs'
    → IsSerial rs
    → IsSerial rs'
Evolves-IsSerial e h q = omega (arith, h q, count-Evolves (blocks q) (blocks-Advance q) e)

-- The part of a conversation that a claim may add to: `mark_running` starts the rows of one id.
abbrev same_conversation : RequestRow → RequestRow → Bool
same_conversation q r =
    (r.user_id == q.user_id && int_eq r.chat_id q.chat_id) && str_eq r.thread_id q.thread_id

blocks-mark_running :
    (clock : ℕ) (id : String) (x : RequestRow) (rs : List RequestRow)
    → count_where (blocks x) (mark_running clock id rs)
      ≤ count_where (blocks x) rs + count_where (λ r. has_id id r && same_conversation x r) rs
unfolding mark_running count_where
blocks-mark_running clock id x [] = omega arith
blocks-mark_running clock id x (r ∷ rs) = ground (arith, blocks-mark_running clock id x rs)

-- The candidate of `claimNext`: a queued row with no running row in its conversation.
pub candidate-eq-some :
    (p : RequestRow → Bool) (rs : List RequestRow) (q : RequestRow)
    → candidate rs ≡ some q
    → (is_candidate rs q ≡ true) × (p q ≡ true → 1 ≤ count_where p rs)
unfolding candidate
candidate-eq-some p rs q h = oldest-count p (is_candidate rs) rs q h

same_conversation-blocks :
    (x q : RequestRow) (rs : List RequestRow)
    → same_conversation x q ≡ true
    → count_where (blocks x) rs ≡ count_where (blocks q) rs
same_conversation-blocks x q rs h =
    let (owner, thread) =
      &&-eq-true (q.user_id == x.user_id && int_eq q.chat_id x.chat_id)
        (str_eq q.thread_id x.thread_id) h in
    let (user, chat) = &&-eq-true (q.user_id == x.user_id) (int_eq q.chat_id x.chat_id) owner in
    let user' : q.user_id ≡ x.user_id = ground arith in
    rw (
      user',
      (int_eq_iff q.chat_id x.chat_id).0 chat,
      (str_eq_iff q.thread_id x.thread_id).0 thread,
    )

claim-IsSerial :
    (clock : ℕ) (rs : List RequestRow) (q : RequestRow)
    → candidate rs ≡ some q
    → IsUnique rs
    → IsSerial rs
    → IsSerial (mark_running clock q.request_id rs)
claim-IsSerial clock rs q h u serial x =
    let id = q.request_id in
    let (waits, _) = candidate-eq-some (has_id id) rs q h in
    let (_, clear) = &&-eq-true (status_eq q.status queued && not q.cancel_requested) _ waits in
    let cut = count-cut (has_id id) (same_conversation x) rs in
    let elsewhere = candidate-eq-some (λ r. has_id id r && not (same_conversation x r)) rs q h in
    elim (Bool-cases (same_conversation x q)) [
      | inl hit ↦
          let idle = count_of_not_exists (blocks q) rs (not-eq-true _ clear) in
          omega (
            arith,
            blocks-mark_running clock id x rs,
            same_conversation-blocks x q rs hit,
            idle,
            cut,
            u id,
          )
      | inr miss ↦
          let one = elsewhere.1 (rw (miss, str_eq_refl id)) in
          omega (arith, blocks-mark_running clock id x rs, cut, u id, serial x, one)
    ]

pub record IsOrderly (rs : List RequestRow) : Type 0 where
  pub unique : IsUnique rs
  pub serial : IsSerial rs

pub claim_next-IsOrderly :
    (clock : ℕ) (s : Coordinator) (r : RequestRow) (s' : Coordinator)
    → claim_next clock s ≡ some (r, s')
    → IsOrderly s.requests
    → IsOrderly s'.requests
claim_next-IsOrderly clock s r s' e h =
    let (q, found, marked, read) = claim_next-eq-some clock s r s' e in
    record {
      unique = Evolves-IsUnique (claim_next-IsLawful clock s r s' e).evolves h.unique;
      serial = rw marked (claim-IsSerial clock s.requests q found h.unique h.serial);
    }

Moved-IsOrderly :
    {l : RequestRow → Bool} {rs rs' : List RequestRow}
    → Moved false l rs rs'
    → IsOrderly rs
    → IsOrderly rs'
Moved-IsOrderly l h = record {
  unique = Evolves-IsUnique l.evolves h.unique;
  serial = Evolves-IsSerial l.evolves h.serial;
}

drain_loop-IsOrderly :
    (clock : ℕ) (c : Config) (fuel : ℕ) (s : Coordinator)
    → IsOrderly s.requests
    → IsOrderly (drain_loop clock c fuel s).requests
unfolding drain_loop
drain_loop-IsOrderly clock c zero s h = h
drain_loop-IsOrderly clock c (suc fuel) s h =
    elim (Bool-cases (ltb (length s.running) c.max_concurrent_agent_requests)) [
      | inl free ↦ elim (Option-cases (claim_next clock s)) [
        | inl e ↦ rw (free, e, drain_loop) h
        | inr ((r, s'), e) ↦
            rw (free, e, drain_loop)
              (drain_loop-IsOrderly clock c fuel (start_run clock s' r) (
                Moved-IsOrderly (start_run-IsLawful clock s' r)
                  (claim_next-IsOrderly clock s r s' e h)))
      ]
      | inr full ↦ rw (full, drain_loop) h
    ]

drain_microtask-IsOrderly :
    (clock : ℕ) (c : Config) (s : Coordinator)
    → IsOrderly s.requests
    → IsOrderly (drain_microtask clock c s).requests
unfolding drain_microtask drain
drain_microtask-IsOrderly clock c s h = ground (
  arith,
  h,
  drain_loop-IsOrderly clock c c.max_concurrent_agent_requests (record s { draining = false }) h,
)

append-IsOrderly :
    (rs : List RequestRow) (hash : String) (i : EnqueueInput) (now : ℕ) (request_id : String)
    → exists_where (has_id request_id) rs ≡ false
    → IsOrderly rs
    → IsOrderly (rs ++ new_row hash i now request_id ∷ [])
unfolding count_where
append-IsOrderly rs hash i now request_id fresh h = record {
  unique = append-IsUnique rs hash i now request_id fresh h.unique;
  serial = λ q.
      ground
        (arith, count_where-append (blocks q) rs (new_row hash i now request_id ∷ []), h.serial q);
}

step-IsOrderly :
    (w : Surroundings) (clock : ℕ) (s : Coordinator) (e : Event)
    → IsOrderly s.requests
    → IsOrderly (step w clock s e).requests
unfolding step
step-IsOrderly w clock s (enqueues i now id) h =
    elim (enqueue_fresh w.hash_message w.config s i now id) [
      | inl e ↦ rw e h
      | inr (e, fresh) ↦ rw e (append-IsOrderly s.requests _ i now id fresh h)
    ]
step-IsOrderly w clock s drains h = drain_microtask-IsOrderly clock w.config s h
step-IsOrderly w clock s e h = Moved-IsOrderly (step-Moved w clock s e refl) h

-- If no request id stands twice and each conversation (a user's thread in a chat) has at most one
-- running request, then so it is after any events: two turns of one conversation never run at
-- once.
pub run-IsOrderly :
    (w : Surroundings) (s : Coordinator) (es : List (ℕ × Event))
    → IsOrderly s.requests
    → IsOrderly (run w s es).requests
unfolding run
run-IsOrderly w s [] h = h
run-IsOrderly w s ((clock, e) ∷ es) h =
    run-IsOrderly w (step w clock s e) es (step-IsOrderly w clock s e h)
