-- ===== src/Web/Admission/Runs.antt =====
-- The limits hold after any operations on the admission table, over every interval and not only
-- over those that end at an admission. Clocks may jump.
use eveai.Base.{ℕ, ◌≤◌, ◌≡◌, refl, ◌≢◌, ◌⊎◌, inl, inr, String, List, [], ◌∷◌, ◌++◌, sum_of, arith}
use eveai.Web.Admission.{
  EventKind, session, AdmissionEvent, AdmissionInput, Limits, admitted, window_ms, day_ms, of_user,
  of_kind, of_ip, user_units, units, event_of, admit_web_event, record_session, prune_events,
  session_event, Operation, admit, new_session, prune, step, run,
}
use eveai.Web.Admission.Windows.{within, append-IsBounded, prune-IsBounded}
use eveai.Web.Admission.NewRow.{IsWithin, other_kind, append-IsWithin}

admit-table :
    (c : Limits) (t : List AdmissionEvent) (i : AdmissionInput) (now : ℕ) (event_id : String)
    → (((admit_web_event c t i now event_id).0 ≡ admitted)
        × ((admit_web_event c t i now event_id).1 ≡ t ++ event_of i now event_id ∷ []))
      ⊎ ((admit_web_event c t i now event_id).1 ≡ t)
unfolding admit_web_event
admit-table c t i now event_id = ground arith

admit-IsWithin :
    (c : Limits) (t : List AdmissionEvent) (i : AdmissionInput) (now : ℕ) (event_id : String)
    → IsWithin c t
    → IsWithin c (admit_web_event c t i now event_id).1
admit-IsWithin c t i now event_id h = elim (admit-table c t i now event_id) [
  | inl (passed, e) ↦ rw e (append-IsWithin c t i now event_id passed h)
  | inr e ↦ rw e h
]

-- A session's row has no cost and a kind of its own.
session-IsWithin :
    (c : Limits) (t : List AdmissionEvent) (u now : ℕ) (ip event_id : String)
    → IsWithin c t
    → IsWithin c (record_session t u ip now event_id)
unfolding record_session
session-IsWithin c t u now ip event_id h =
    let e = session_event u ip now event_id in
    record {
      user_rate =
          λ k v ne. append-IsBounded _ _ _ t e (h.user_rate k v ne) (inl (rw (other_kind k ne)));
      window_rate =
          λ k ne. append-IsBounded _ _ _ t e (h.window_rate k ne) (inl (rw (other_kind k ne)));
      day_rate = λ k ne. append-IsBounded _ _ _ t e (h.day_rate k ne) (inl (rw (other_kind k ne)));
      ip_rate =
          λ k v ne. append-IsBounded _ _ _ t e (h.ip_rate k v ne) (inl (rw (other_kind k ne)));
      user_budget = λ v. append-IsBounded _ _ _ t e (h.user_budget v) (inl (ground arith));
      window_budget = append-IsBounded _ _ _ t e h.window_budget (inl refl);
      day_budget = append-IsBounded _ _ _ t e h.day_budget (inl refl);
    }

prune-IsWithin :
    (c : Limits) (t : List AdmissionEvent) (cutoff : ℕ)
    → IsWithin c t
    → IsWithin c (prune_events cutoff t)
prune-IsWithin c t cutoff h = record {
  user_rate = λ k u ne. prune-IsBounded _ _ _ cutoff t (h.user_rate k u ne);
  window_rate = λ k ne. prune-IsBounded _ _ _ cutoff t (h.window_rate k ne);
  day_rate = λ k ne. prune-IsBounded _ _ _ cutoff t (h.day_rate k ne);
  ip_rate = λ k ip ne. prune-IsBounded _ _ _ cutoff t (h.ip_rate k ip ne);
  user_budget = λ u. prune-IsBounded _ _ _ cutoff t (h.user_budget u);
  window_budget = prune-IsBounded _ _ _ cutoff t h.window_budget;
  day_budget = prune-IsBounded _ _ _ cutoff t h.day_budget;
}

step-IsWithin :
    (c : Limits) (t : List AdmissionEvent) (o : Operation) → IsWithin c t → IsWithin c (step c t o)
unfolding step
step-IsWithin c t (admit i now event_id) h = admit-IsWithin c t i now event_id h
step-IsWithin c t (new_session u ip now event_id) h = session-IsWithin c t u now ip event_id h
step-IsWithin c t (prune cutoff) h = prune-IsWithin c t cutoff h

run-IsWithin :
    (c : Limits) (t : List AdmissionEvent) (os : List Operation)
    → IsWithin c t
    → IsWithin c (run c t os)
unfolding run
run-IsWithin c t [] h = h
run-IsWithin c t (o ∷ os) h = run-IsWithin c (step c t o) os (step-IsWithin c t o h)

empty-IsWithin : (c : Limits) → IsWithin c []
unfolding within sum_of
empty-IsWithin c = record {
  user_rate = λ k u ne s. omega arith;
  window_rate = λ k ne s. omega arith;
  day_rate = λ k ne s. omega arith;
  ip_rate = λ k ip ne s. omega arith;
  user_budget = λ u s. omega arith;
  window_budget = λ s. omega arith;
  day_budget = λ s. omega arith;
}

-- From an empty table, after any operations at any times: of each kind of event but sessions, in
-- every interval of the length of the request window no user has more admitted events than the
-- user limit, and neither all callers together nor one IP key more than the global window limit;
-- and in every interval of a day all callers have at most the day limit.
pub run-rates :
    (c : Limits) (os : List Operation) (k : EventKind) (u : ℕ) (ip : String) (s : ℕ)
    → k ≢ session
    → (within (of_user k u) s (window_ms c) (run c [] os) ≤ c.max_requests_per_user_window)
      × (within (of_kind k) s (window_ms c) (run c [] os) ≤ c.max_requests_global_window)
      × (within (of_ip k ip) s (window_ms c) (run c [] os) ≤ c.max_requests_global_window)
      × (within (of_kind k) s day_ms (run c [] os) ≤ c.max_requests_global_day)
run-rates c os k u ip s ne =
    let h = run-IsWithin c [] os (empty-IsWithin c) in
    (h.user_rate k u ne s, h.window_rate k ne s, h.ip_rate k ip ne s, h.day_rate k ne s)

-- From an empty table, after any operations at any times: in every interval of the length of the
-- request window the cost units of one user stay within the user budget and those of all callers,
-- over all kinds of events, within the global window budget; in every interval of a day the cost
-- units of all callers stay within the day budget.
pub run-budgets :
    (c : Limits) (os : List Operation) (u s : ℕ)
    → (within (user_units u) s (window_ms c) (run c [] os) ≤ c.max_cost_units_per_user_window)
      × (within units s (window_ms c) (run c [] os) ≤ c.max_cost_units_global_window)
      × (within units s day_ms (run c [] os) ≤ c.max_cost_units_global_day)
run-budgets c os u s =
    let h = run-IsWithin c [] os (empty-IsWithin c) in
    (h.user_budget u s, h.window_budget s, h.day_budget s)
