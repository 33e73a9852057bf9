-- ===== src/Web/Admission/Outcomes.antt =====
-- What one call of `admitWebEvent` answers, and what it writes.
use eveai.Base.{
  ℕ, ◌+◌, ◌≤◌, ◌≡◌, ◌≢◌, ◌↔◌, ap, ◌⊎◌, inl, inr, String, false, none, some, List, [], ◌∷◌, ◌++◌,
  Option-cases, arith,
}
use eveai.Web.Admission.NewRow.{
  admitted-user_rate, admitted-window_rate, admitted-day_rate, admitted-ip_rate,
  admitted-user_budget, admitted-guest_budget, admitted-budgets,
}
use eveai.Web.Admission.{
  AdmissionEvent, AdmissionInput, Limits, admitted, rejected, Decision, window_ms, day_ms, of_user,
  of_kind, of_ip, user_units, units, recent, user_requests_full, global_requests_full,
  user_budget_spent, global_budget_spent, ip_requests_full, event_of, admit_web_event,
}

-- A 429 or a 503.
abbrev pub IsRefusal : Decision → Type 0
IsRefusal admitted = ⊥
IsRefusal (rejected code error retry) = (code ≡ 429) ⊎ (code ≡ 503)

-- What the arithmetic of the limits asks of a call, said without the order of the checks.
pub record Fits (c : Limits) (t : List AdmissionEvent) (i : AdmissionInput) (now : ℕ) : Type 0 where
  pub user_rate :
      (u : ℕ)
      → i.user_id ≡ some u
      → recent (of_user i.event_kind u) now (window_ms c) t + 1 ≤ c.max_requests_per_user_window
  pub window_rate :
      recent (of_kind i.event_kind) now (window_ms c) t + 1 ≤ c.max_requests_global_window
  pub day_rate : recent (of_kind i.event_kind) now day_ms t + 1 ≤ c.max_requests_global_day
  pub ip_rate :
      recent (of_ip i.event_kind i.ip_key) now (window_ms c) t + 1 ≤ c.max_requests_global_window
  pub user_budget :
      (u : ℕ)
      → i.user_id ≡ some u
      → (i.cost_units ≡ 0)
        ⊎ (recent (user_units u) now (window_ms c) t + i.cost_units
            ≤ c.max_cost_units_per_user_window)
  pub guest_budget :
      i.user_id ≡ none → (i.cost_units ≡ 0) ⊎ (i.cost_units ≤ c.max_cost_units_per_user_window)
  pub budgets :
      (i.cost_units ≡ 0)
      ⊎ ((recent units now (window_ms c) t + i.cost_units ≤ c.max_cost_units_global_window)
          × (recent units now day_ms t + i.cost_units ≤ c.max_cost_units_global_day))

module _ (c : Limits) (t : List AdmissionEvent) (i : AdmissionInput) (now : ℕ)
    (event_id : String) where
  Fits-of_admitted : (admit_web_event c t i now event_id).0 ≡ admitted → Fits c t i now
  Fits-of_admitted h = record {
    user_rate = admitted-user_rate c t i now event_id h;
    window_rate = admitted-window_rate c t i now event_id h;
    day_rate = admitted-day_rate c t i now event_id h;
    ip_rate = admitted-ip_rate c t i now event_id h;
    user_budget = admitted-user_budget c t i now event_id h;
    guest_budget = admitted-guest_budget c t i now event_id h;
    budgets = admitted-budgets c t i now event_id h;
  }

  user_requests-Fits : Fits c t i now → user_requests_full c t i now ≡ false
  unfolding user_requests_full
  user_requests-Fits f = elim (Option-cases i.user_id) [
    | inl e ↦ rw (e, user_requests_full)
    | inr (u, e) ↦ let fits = f.user_rate u e in rw (e, user_requests_full) (ground arith)
  ]

  user_budget-Fits : Fits c t i now → user_budget_spent c t i now ≡ false
  unfolding user_budget_spent
  user_budget-Fits f = elim (Option-cases i.user_id) [
    | inl e ↦ let fits = f.guest_budget e in rw (e, user_budget_spent) (ground arith)
    | inr (u, e) ↦ let fits = f.user_budget u e in rw (e, user_budget_spent) (ground arith)
  ]

  global-Fits :
      Fits c t i now
      → (global_requests_full c t i now ≡ false)
        × (global_budget_spent c t i now ≡ false)
        × (ip_requests_full c t i now ≡ false)
  unfolding global_requests_full global_budget_spent ip_requests_full
  global-Fits f =
      let window = f.window_rate in
      let day = f.day_rate in
      let ip = f.ip_rate in let budgets = f.budgets in (ground arith, ground arith, ground arith)

  admit-Fits :
      Fits c t i now
      → admit_web_event c t i now event_id ≡ (admitted, t ++ event_of i now event_id ∷ [])
  unfolding admit_web_event
  admit-Fits f =
      let users = user_requests-Fits f in
      let budget = user_budget-Fits f in let (requests, budgets, ip) = global-Fits f in ground arith

  refuse :
      (admit_web_event c t i now event_id).0 ≢ admitted
      → ((admit_web_event c t i now event_id).1 ≡ t)
        × IsRefusal (admit_web_event c t i now event_id).0
  unfolding admit_web_event
  refuse h = ground arith

-- `admitWebEvent` admits a call exactly when it fits all the limits: the caller's window and
-- budget, the windows and budgets of all callers, and the window of its IP key. An admission adds
-- the one row of the call, with the time and the event id that it was given, at the end. Any other
-- call leaves the table as it was and gets a 429 or a 503.
pub admit_web_event_lem :
    (c : Limits) (t : List AdmissionEvent) (i : AdmissionInput) (now : ℕ) (event_id : String)
    → (((admit_web_event c t i now event_id).0 ≡ admitted) ↔ Fits c t i now)
      × (Fits c t i now
          → admit_web_event c t i now event_id ≡ (admitted, t ++ event_of i now event_id ∷ []))
      × (¬ Fits c t i now
          → ((admit_web_event c t i now event_id).1 ≡ t)
            × IsRefusal (admit_web_event c t i now event_id).0)
admit_web_event_lem c t i now event_id = (
  (Fits-of_admitted c t i now event_id, λ f. ap (λ r. r.0) (admit-Fits c t i now event_id f)),
  admit-Fits c t i now event_id,
  λ misfit. refuse c t i now event_id (λ h. misfit (Fits-of_admitted c t i now event_id h)),
)
