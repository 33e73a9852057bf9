-- ===== src/Web/Requests/Rows/Lawful.antt =====
-- Each UPDATE statement of the coordinator advances rows and keeps them well-formed.
use eveai.Base.{
  ℕ, ◌≤◌, ◌≡◌, String, true, false, Option, none, List, [], ◌∷◌, arith, length, take, length-drop,
  zero, suc, ◌-◌,
}
use eveai.Web.Requests.Rows.{
  Text, ActivityItem, ErrorCode, RequestRow, Owner, FinishStatus, completed, failed, cancelled,
  max_activity_items, max_stream_text_chars, take_last, is_queued, is_active_in, is_streaming,
  is_cancelling, set_cancelled, set_cancel_requested, set_force_cancelled, set_running, set_lease,
  set_activity, set_stream_text, set_finished, set_late_cancelled, cancel_queued, request_cancel,
  force_cancel, mark_running, renew_lease, store_activity, write_stream_text, mark_finished,
  late_cancel, is_running, is_claimable, may_finish,
}
use eveai.Web.Requests.Rows.Moves.{is_some, IsLawful, IsLawful-update}

length-take-le {ℓ} : {A : Type ℓ} (n : ℕ) (xs : List A) → length (take n xs) ≤ n
length-take-le zero xs = omega arith
length-take-le (suc n) [] = omega arith
length-take-le (suc n) (x ∷ xs) = omega (arith, length-take-le n xs)

length-take_last-le {ℓ} : {A : Type ℓ} (n : ℕ) (xs : List A) → length (take_last n xs) ≤ n
length-take_last-le n xs = omega (arith, length-drop (length xs - n) xs)

module _ (clock : ℕ) (id : String) (rs : List RequestRow) where
  pub cancel_queued-IsLawful : IsLawful false rs (cancel_queued clock id rs)
  unfolding cancel_queued
  cancel_queued-IsLawful =
      IsLawful-update (is_queued id) (set_cancelled clock)
        (λ r h. (ground arith, λ w. ground arith)) rs

  pub request_cancel-IsLawful : IsLawful false rs (request_cancel clock id rs)
  unfolding request_cancel
  request_cancel-IsLawful =
      IsLawful-update (is_running id) (set_cancel_requested clock)
        (λ r h. (ground arith, λ w. ground arith)) rs

  pub mark_running-IsLawful : IsLawful true rs (mark_running clock id rs)
  unfolding mark_running
  mark_running-IsLawful =
      IsLawful-update (is_claimable id) (set_running clock)
        (λ r h. (ground arith, λ w. ground arith)) rs

  pub renew_lease-IsLawful : IsLawful false rs (renew_lease clock id rs)
  unfolding renew_lease
  renew_lease-IsLawful =
      IsLawful-update (is_running id) (set_lease clock) (λ r h. (ground arith, λ w. ground arith))
        rs

  pub late_cancel-IsLawful : IsLawful false rs (late_cancel clock id rs)
  unfolding late_cancel
  late_cancel-IsLawful =
      IsLawful-update (is_cancelling id) (set_late_cancelled clock)
        (λ r h. (ground arith, λ w. ground arith)) rs

  pub store_activity-IsLawful :
      (activity : List ActivityItem) → IsLawful false rs (store_activity clock id activity rs)
  unfolding store_activity
  store_activity-IsLawful activity =
      IsLawful-update (is_running id) (set_activity clock activity)
        (λ r h.
          (ground arith, λ w. ground (arith, length-take_last-le max_activity_items activity)))
        rs

  pub write_stream_text-IsLawful :
      (text : Text) → IsLawful false rs (write_stream_text clock id text rs)
  unfolding write_stream_text
  write_stream_text-IsLawful text =
      IsLawful-update (is_streaming id) (set_stream_text clock text)
        (λ r h. (ground arith, λ w. ground (arith, length-take-le max_stream_text_chars text))) rs

pub force_cancel-IsLawful :
    (clock : ℕ) (owner : Owner) (rs : List RequestRow)
    → IsLawful false rs (force_cancel clock owner rs)
unfolding force_cancel
force_cancel-IsLawful clock owner rs =
    IsLawful-update (is_active_in owner) (set_force_cancelled clock)
      (λ r h. (ground arith, λ w. ground arith)) rs

-- The arguments that `execute` passes to `finish`.
abbrev pub IsOutcome : FinishStatus → Option String → Option ErrorCode → Type 0
IsOutcome completed result error = error ≡ none
IsOutcome failed result error = (result ≡ none) × (is_some error ≡ true)
IsOutcome cancelled result error = (result ≡ none) × (is_some error ≡ true)

pub mark_finished-IsLawful :
    (clock : ℕ) (id : String) (st : FinishStatus) (result : Option String) (assistant : Option ℕ)
    (error : Option ErrorCode) (rs : List RequestRow)
    → IsOutcome st result error
    → IsLawful false rs (mark_finished clock id st result assistant error rs)
unfolding mark_finished
mark_finished-IsLawful clock id completed result assistant error rs o =
    IsLawful-update (may_finish id completed) (set_finished clock completed result assistant error)
      (λ r h. (ground arith, λ w. ground arith)) rs
mark_finished-IsLawful clock id failed result assistant error rs o =
    IsLawful-update (may_finish id failed) (set_finished clock failed result assistant error)
      (λ r h. (ground arith, λ w. ground arith)) rs
mark_finished-IsLawful clock id cancelled result assistant error rs o =
    IsLawful-update (may_finish id cancelled) (set_finished clock cancelled result assistant error)
      (λ r h. (ground arith, λ w. ground arith)) rs
