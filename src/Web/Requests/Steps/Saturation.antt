-- ===== src/Web/Requests/Steps/Saturation.antt =====
-- `drain` on enough fuel: it stops only where no slot is free or nothing waits.
use eveai.Base.{
  ℕ, zero, suc, ◌+◌, ◌≤◌, ◌≡◌, refl, sym, String, Bool, true, false, not, ◌&&◌, Option, none, some,
  List, [], ◌∷◌, str_eq, str_eq_iff, str_eq_refl, arith, ltb, Bool-cases, Option-cases, ◌⊎◌, inl,
  inr, count_where, exists_where, find_where, update_where, put_by, &&-eq-true, length,
}
use eveai.Web.Requests.Rows.{
  RequestRow, ErrorCode, FinishStatus, queued, status_eq, mark_running, is_claimable,
}
use eveai.Web.Requests.Rows.Moves.{Advance}
use eveai.Web.Requests.State.{
  Config, Coordinator, Run, has_id, is_run, finish, commit, drop_buffer, delete_cancelled_messages,
}
use eveai.Web.Requests.Execution.{
  claim_next, start_run, drain_loop, end_run, new_run, settle_run, has_identity,
}
use eveai.Web.Requests.Steps.Execution.{claim_next-eq-some, claim_next-IsLawful, start_run-IsLawful}
use eveai.Web.Requests.Steps.Bounds.{count-Evolves}
use eveai.Web.Requests.Steps.Conversations.{IsUnique, candidate-eq-some, Evolves-IsUnique}

abbrev pub is_waiting : String → RequestRow → Bool
is_waiting id r = has_id id r && status_eq r.status queued

-- No request that waits has an executing entry.
abbrev pub IsFresh : Coordinator → Type 0
IsFresh s =
    (id : String)
    → exists_where (is_run id) s.running ≡ true
    → count_where (is_waiting id) s.requests ≡ 0

finish-running :
    (clock : ℕ) (s : Coordinator) (id : String) (st : FinishStatus) (result : Option String)
    (error : Option ErrorCode)
    → (finish clock s id st result error).running ≡ s.running
unfolding finish drop_buffer commit delete_cancelled_messages
finish-running clock s id st result error = ground arith

length-put_by :
    (p : Run → Bool) (a : Run) (xs : List Run)
    → exists_where p xs ≡ false
    → length (put_by p a xs) ≡ suc (length xs)
unfolding exists_where put_by
length-put_by p a [] h = refl
length-put_by p a (x ∷ xs) h = ground (arith, length-put_by p a xs)

length-update :
    (p : Run → Bool) (f : Run → Run) (xs : List Run) → length (update_where p f xs) ≡ length xs
unfolding update_where
length-update p f [] = refl
length-update p f (x ∷ xs) = ground (arith, length-update p f xs)

exists-put_by :
    (id : String) (a : Run) (xs : List Run)
    → exists_where (is_run id) (put_by (is_run a.request_id) a xs) ≡ true
    → (str_eq a.request_id id ≡ true) ⊎ (exists_where (is_run id) xs ≡ true)
unfolding exists_where put_by
exists-put_by id a [] h = ground arith
exists-put_by id a (x ∷ xs) h = ground (arith, exists-put_by id a xs)

exists-update :
    (id : String) (p : Run → Bool) (f : Run → Run)
    → ((x : Run) → (f x).request_id ≡ x.request_id)
    → (xs : List Run) → exists_where (is_run id) (update_where p f xs) ≡ exists_where (is_run id) xs
unfolding exists_where update_where
exists-update id p f keep [] = refl
exists-update id p f keep (x ∷ xs) =
    let same = keep x in ground (arith, exists-update id p f keep xs)

start_run-running :
    (clock : ℕ) (s : Coordinator) (r : RequestRow) (id : String)
    → exists_where (is_run r.request_id) s.running ≡ false
    → (length (start_run clock s r).running ≡ suc (length s.running))
      × (exists_where (is_run id) (start_run clock s r).running ≡ true
          → (str_eq r.request_id id ≡ true) ⊎ (exists_where (is_run id) s.running ≡ true))
unfolding start_run end_run
start_run-running clock s r id h =
    let runs = put_by (is_run r.request_id) (new_run r.request_id) s.running in
    let longer = length-put_by (is_run r.request_id) (new_run r.request_id) s.running h in
    let known = exists-put_by id (new_run r.request_id) s.running in
    elim (Bool-cases (has_identity s.users r)) [
      | inl e ↦ rw (e, start_run) (longer, known)
      | inr e ↦
          rw
            (
              e,
              start_run,
              end_run,
              finish-running clock (record s { running = runs }) r.request_id FinishStatus.failed
                  none (some ErrorCode.identity_changed),
              length-update (is_run r.request_id) settle_run runs,
              exists-update id (is_run r.request_id) settle_run (λ x. refl) runs,
            )
            (longer, known)
    ]

waiting-Advance :
    {c : Bool} (id : String) (r r' : RequestRow)
    → Advance c r r'
    → is_waiting id r' ≡ true
    → is_waiting id r ≡ true
waiting-Advance id r r' a h = let path = a.status in let same = a.same.request_id in ground arith

-- A claim starts the one row of its id.
count-mark_running :
    (clock : ℕ) (id : String) (rs : List RequestRow)
    → count_where (is_waiting id) (mark_running clock id rs) + count_where (is_claimable id) rs
      ≤ count_where (has_id id) rs
unfolding count_where mark_running
count-mark_running clock id [] = omega arith
count-mark_running clock id (r ∷ rs) = ground (arith, count-mark_running clock id rs)

find_where-has_id :
    (id : String) (rs : List RequestRow) (r : RequestRow)
    → find_where (has_id id) rs ≡ some r
    → r.request_id ≡ id
unfolding find_where
find_where-has_id id [] r h = cc
find_where-has_id id (x ∷ rs) r h = elim (Bool-cases (has_id id x)) [
  | inl e ↦
      let found : some x ≡ some r = rw e at h in
      let here = (str_eq_iff x.request_id id).0 e in ground arith
  | inr e ↦ find_where-has_id id rs r (rw e at h)
]

-- The round of a claim: the claimed request had no entry, and what waits has none afterwards.
module _ (clock : ℕ) (s : Coordinator) (r : RequestRow) (s' : Coordinator)
    (claimed : claim_next clock s ≡ some (r, s')) (unique : IsUnique s.requests)
    (fresh : IsFresh s) where
  claimed-fresh :
      (exists_where (is_run r.request_id) s.running ≡ false)
      × (s'.running ≡ s.running)
      × (count_where (is_waiting r.request_id) s'.requests ≡ 0)
  claimed-fresh =
      let (q, found, marked, read) = claim_next-eq-some clock s r s' claimed in
      let same = find_where-has_id q.request_id _ r read in
      let waits = candidate-eq-some (is_waiting q.request_id) s.requests q found in
      let claims = candidate-eq-some (is_claimable q.request_id) s.requests q found in
      let (ready, clear) =
        &&-eq-true (status_eq q.status queued && not q.cancel_requested) _ waits.0 in
      let (is_queued, kept) =
        &&-eq-true (status_eq q.status queued) (not q.cancel_requested) ready in
      let one = waits.1 (rw (str_eq_refl q.request_id, is_queued) refl) in
      let free = claims.1 (rw (str_eq_refl q.request_id, is_queued, kept) refl) in
      let none_left = count-mark_running clock q.request_id s.requests in
      let only = unique q.request_id in
      rw (same, marked)
        (
          elim (Bool-cases (exists_where (is_run q.request_id) s.running)) [
            | inl e ↦ let none_waits = fresh q.request_id e in absurd (omega arith)
            | inr e ↦ e
          ],
          refl,
          omega (arith, none_left, only, free),
        )

  round-IsFresh : IsFresh (start_run clock s' r)
  round-IsFresh id e =
      let (absent, runs, gone) = claimed-fresh in
      let started = start_run-running clock s' r id (rw runs absent) in
      let later =
        count-Evolves (is_waiting id) (waiting-Advance id)
          (start_run-IsLawful clock s' r).evolves in
      let before =
        count-Evolves (is_waiting id) (waiting-Advance id)
          (claim_next-IsLawful clock s r s' claimed).evolves in
      elim (started.1 e) [
        | inl same ↦
            let none_waits = rw ((str_eq_iff r.request_id id).0 same) at gone in omega arith
        | inr known ↦ let none_waits = fresh id (rw runs at known) in omega arith
      ]

  round-length : length (start_run clock s' r).running ≡ suc (length s.running)
  round-length =
      let (absent, runs, gone) = claimed-fresh in
      let started = start_run-running clock s' r r.request_id (rw runs absent) in
      rw (sym runs) started.0

  round-IsUnique : IsUnique (start_run clock s' r).requests
  round-IsUnique =
      Evolves-IsUnique (start_run-IsLawful clock s' r).evolves
        (Evolves-IsUnique (claim_next-IsLawful clock s r s' claimed).evolves unique)

-- With fuel for the free slots the loop of `drain` ends by itself: no slot is free behind it, or
-- no request can be claimed. No request id stands twice, and no request that waits has an
-- executing entry before.
pub drain_loop-saturates :
    (clock : ℕ) (c : Config) (fuel : ℕ) (s : Coordinator)
    → IsUnique s.requests
    → IsFresh s
    → c.max_concurrent_agent_requests ≤ length s.running + fuel
    → (c.max_concurrent_agent_requests ≤ length (drain_loop clock c fuel s).running)
      ⊎ (claim_next clock (drain_loop clock c fuel s) ≡ none)
unfolding drain_loop
drain_loop-saturates clock c zero s u f h = inl (omega arith)
drain_loop-saturates clock c (suc fuel) s u f h =
    elim (Bool-cases (ltb (length s.running) c.max_concurrent_agent_requests)) [
      | inl free ↦ elim (Option-cases (claim_next clock s)) [
        | inl e ↦ rw (free, e, drain_loop) (inr e)
        | inr ((r, s'), e) ↦
            rw (free, e, drain_loop)
              (drain_loop-saturates clock c fuel (start_run clock s' r)
                (round-IsUnique clock s r s' e u f) (round-IsFresh clock s r s' e u f)
                (omega (arith, round-length clock s r s' e u f)))
      ]
      | inr full ↦ rw (full, drain_loop) (inl (ground arith))
    ]
