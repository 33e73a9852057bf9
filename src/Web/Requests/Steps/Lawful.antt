-- ===== src/Web/Requests/Steps/Lawful.antt =====
-- Every event of the coordinator moves the table of requests lawfully.
use eveai.Base.{
  ℕ, ◌≡◌, String, false, Option, none, some, List, [], ◌∷◌, arith, Option-cases, ◌⊎◌, inl, inr,
  find_where,
}
use eveai.Web.Requests.Rows.{
  RequestRow, Owner, FinishStatus, completed, failed, cancelled, ErrorCode, mark_finished,
  late_cancel,
}
use eveai.Web.Requests.Rows.Moves.{IsLawful, IsLawful-refl, IsLawful-trans}
use eveai.Web.Requests.Rows.Lawful.{
  IsOutcome, cancel_queued-IsLawful, request_cancel-IsLawful, late_cancel-IsLawful,
  write_stream_text-IsLawful, mark_finished-IsLawful,
}
use eveai.Web.Requests.State.{
  StreamBuffer, Coordinator, delete_cancelled_messages, flush_text, drop_buffer, commit, finish,
  answer_of,
}
use eveai.Web.Requests.Queue.{is_owned, cancel_row, cancel, cancel_all}
use eveai.Web.Requests.Execution.{end_run, flush_all}

pub delete_cancelled_messages-requests :
    (s : Coordinator) (id : String) → (delete_cancelled_messages s id).requests ≡ s.requests
unfolding delete_cancelled_messages
delete_cancelled_messages-requests s id = ground arith

pub flush_text-IsLawful :
    (clock : ℕ) (id : String) (b : Option StreamBuffer) (rs : List RequestRow)
    → IsLawful false rs (flush_text clock id b rs)
unfolding flush_text
flush_text-IsLawful clock id none rs = IsLawful-refl rs
flush_text-IsLawful clock id (some b) rs =
    ground (arith, IsLawful-refl {c = false} rs, write_stream_text-IsLawful clock id rs b.text)

pub flush_all-IsLawful :
    (clock : ℕ) (bs : List StreamBuffer) (rs : List RequestRow)
    → IsLawful false rs (flush_all clock bs rs)
unfolding flush_all
flush_all-IsLawful clock [] rs = IsLawful-refl rs
flush_all-IsLawful clock (b ∷ bs) rs =
    IsLawful-trans (flush_text-IsLawful clock b.request_id (some b) rs)
      (flush_all-IsLawful clock bs (flush_text clock b.request_id (some b) rs))

-- The first statement of `finish`, and perhaps the last.
pub commit-requests :
    (clock : ℕ) (s : Coordinator) (id : String) (st : FinishStatus) (result : Option String)
    (error : Option ErrorCode)
    → let rs = mark_finished clock id st result (answer_of st id s.messages) error s.requests in
      ((commit clock s id st result error).requests ≡ rs)
      ⊎ ((commit clock s id st result error).requests ≡ late_cancel clock id rs)
unfolding commit
commit-requests clock s id completed result error = ground arith
commit-requests clock s id failed result error = ground arith
commit-requests clock s id cancelled result error = ground arith

commit-IsLawful :
    (clock : ℕ) (s : Coordinator) (id : String) (st : FinishStatus) (result : Option String)
    (error : Option ErrorCode)
    → IsOutcome st result error
    → IsLawful false s.requests (commit clock s id st result error).requests
commit-IsLawful clock s id st result error o =
    let first =
      mark_finished-IsLawful clock id st result (answer_of st id s.messages) error s.requests o in
    elim (commit-requests clock s id st result error) [
      | inl e ↦ rw e first
      | inr e ↦ rw e (IsLawful-trans first (late_cancel-IsLawful clock id _))
    ]

pub finish-IsLawful :
    (clock : ℕ) (s : Coordinator) (id : String) (st : FinishStatus) (result : Option String)
    (error : Option ErrorCode)
    → IsOutcome st result error
    → IsLawful false s.requests (finish clock s id st result error).requests
unfolding finish drop_buffer
finish-IsLawful clock s id st result error o =
    IsLawful-trans (flush_text-IsLawful clock id _ s.requests)
      (commit-IsLawful clock (drop_buffer clock s id) id st result error o)

pub end_run-IsLawful :
    (clock : ℕ) (s : Coordinator) (id : String) (st : FinishStatus) (result : Option String)
    (error : Option ErrorCode)
    → IsOutcome st result error
    → IsLawful false s.requests (end_run clock s id st result error).requests
unfolding end_run
end_run-IsLawful clock s id st result error o = finish-IsLawful clock s id st result error o

cancel_row-IsLawful :
    (clock : ℕ) (s : Coordinator) (r : RequestRow)
    → IsLawful false s.requests (cancel_row clock s r).requests
unfolding cancel_row delete_cancelled_messages
cancel_row-IsLawful clock s r = ground (
  arith,
  IsLawful-refl {c = false} s.requests,
  cancel_queued-IsLawful clock r.request_id s.requests,
  request_cancel-IsLawful clock r.request_id s.requests,
)

pub cancel-IsLawful :
    (clock : ℕ) (s : Coordinator) (o : Owner) (id : String)
    → IsLawful false s.requests (cancel clock s o id).1.requests
unfolding cancel
cancel-IsLawful clock s o id = elim (Option-cases (find_where (is_owned o id) s.requests)) [
  | inl e ↦ rw (e, cancel) (IsLawful-refl s.requests)
  | inr (r, e) ↦ rw (e, cancel) (cancel_row-IsLawful clock s r)
]

pub cancel_all-IsLawful :
    (clock : ℕ) (s : Coordinator) (o : Owner) (rs : List RequestRow)
    → IsLawful false s.requests (cancel_all clock s o rs).requests
unfolding cancel_all
cancel_all-IsLawful clock s o [] = IsLawful-refl s.requests
cancel_all-IsLawful clock s o (r ∷ rs) =
    IsLawful-trans (cancel-IsLawful clock s o r.request_id)
      (cancel_all-IsLawful clock (cancel clock s o r.request_id).1 o rs)
