-- ===== src/Web/Admission/NewRow.antt =====
-- The limits as an invariant of the admission table, and what the checks found for a new row.
use eveai.Base.{
  ℕ, ◌+◌, ◌≤◌, ◌≡◌, refl, ◌≢◌, ◌⊎◌, inl, inr, String, true, false, ◌&&◌, Option, none, some, List,
  [], ◌∷◌, ◌++◌, str_eq, str_eq_iff, &&-eq-true, Bool-cases, arith,
}
use eveai.Web.Admission.{
  EventKind, session, chat, ai_search, kind_eq, AdmissionEvent, AdmissionInput, Limits, admitted,
  window_ms, day_ms, user_is, of_user, of_kind, of_ip, user_units, units, recent,
  user_requests_full, global_requests_full, user_budget_spent, global_budget_spent,
  ip_requests_full, event_of, admit_web_event,
}
use eveai.Web.Admission.Windows.{IsBounded, append-IsBounded}

-- A row with more requests, more pruning or another clock keeps all the totals below their limits.
-- Sessions are written past the checks, so the rates are those of the other kinds.
pub record IsWithin (c : Limits) (t : List AdmissionEvent) : Type 0 where
  pub user_rate :
      (k : EventKind) (u : ℕ)
      → k ≢ session
      → IsBounded (of_user k u) (window_ms c) c.max_requests_per_user_window t
  pub window_rate :
      (k : EventKind)
      → k ≢ session
      → IsBounded (of_kind k) (window_ms c) c.max_requests_global_window t
  pub day_rate :
      (k : EventKind) → k ≢ session → IsBounded (of_kind k) day_ms c.max_requests_global_day t
  pub ip_rate :
      (k : EventKind) (ip : String)
      → k ≢ session
      → IsBounded (of_ip k ip) (window_ms c) c.max_requests_global_window t
  pub user_budget :
      (u : ℕ) → IsBounded (user_units u) (window_ms c) c.max_cost_units_per_user_window t
  pub window_budget : IsBounded units (window_ms c) c.max_cost_units_global_window t
  pub day_budget : IsBounded units day_ms c.max_cost_units_global_day t

kind_eq_iff : (a b : EventKind) → kind_eq a b ≡ true → a ≡ b
kind_eq_iff a b h = ground arith

user_is_iff : (u : ℕ) (o : Option ℕ) → user_is u o ≡ true → o ≡ some u
user_is_iff u none h = ground arith
user_is_iff u (some v) h = ground arith

pub other_kind : (k : EventKind) → k ≢ session → kind_eq session k ≡ false
other_kind session ne = absurd (ne refl)
other_kind chat ne = refl
other_kind ai_search ne = refl

-- What an admission has found of each total.
module _ (c : Limits) (t : List AdmissionEvent) (i : AdmissionInput) (now : ℕ) (event_id : String)
    (passed : (admit_web_event c t i now event_id).0 ≡ admitted) where
  pub admitted-checks :
      (user_requests_full c t i now ≡ false)
      × (global_requests_full c t i now ≡ false)
      × (user_budget_spent c t i now ≡ false)
      × (global_budget_spent c t i now ≡ false)
      × (ip_requests_full c t i now ≡ false)
  unfolding admit_web_event
  admitted-checks = ground arith

  pub admitted-user_rate :
      (u : ℕ)
      → i.user_id ≡ some u
      → recent (of_user i.event_kind u) now (window_ms c) t + 1 ≤ c.max_requests_per_user_window
  unfolding user_requests_full
  admitted-user_rate u e =
      let full = rw (e, user_requests_full) at (admitted-checks.0) in ground arith

  pub admitted-window_rate :
      recent (of_kind i.event_kind) now (window_ms c) t + 1 ≤ c.max_requests_global_window
  unfolding global_requests_full
  admitted-window_rate = ground (arith, admitted-checks.1)

  pub admitted-day_rate : recent (of_kind i.event_kind) now day_ms t + 1 ≤ c.max_requests_global_day
  unfolding global_requests_full
  admitted-day_rate = ground (arith, admitted-checks.1)

  pub admitted-ip_rate :
      recent (of_ip i.event_kind i.ip_key) now (window_ms c) t + 1 ≤ c.max_requests_global_window
  unfolding ip_requests_full
  admitted-ip_rate = ground (arith, admitted-checks.4)

  pub admitted-user_budget :
      (u : ℕ)
      → i.user_id ≡ some u
      → (i.cost_units ≡ 0)
        ⊎ (recent (user_units u) now (window_ms c) t + i.cost_units
            ≤ c.max_cost_units_per_user_window)
  unfolding user_budget_spent
  admitted-user_budget u e =
      let spent = rw (e, user_budget_spent) at (admitted-checks.2) in ground arith

  pub admitted-guest_budget :
      i.user_id ≡ none → (i.cost_units ≡ 0) ⊎ (i.cost_units ≤ c.max_cost_units_per_user_window)
  unfolding user_budget_spent
  admitted-guest_budget e =
      let spent = rw (e, user_budget_spent) at (admitted-checks.2) in ground arith

  pub admitted-budgets :
      (i.cost_units ≡ 0)
      ⊎ ((recent units now (window_ms c) t + i.cost_units ≤ c.max_cost_units_global_window)
          × (recent units now day_ms t + i.cost_units ≤ c.max_cost_units_global_day))
  unfolding global_budget_spent
  admitted-budgets = ground (arith, admitted-checks.3)

  -- Each weight of the new row is nothing, or was found to fit.
  new_row-user_rate :
      (k : EventKind) (u : ℕ)
      → (of_user k u (event_of i now event_id) ≡ 0)
        ⊎ (recent (of_user k u) now (window_ms c) t + of_user k u (event_of i now event_id)
            ≤ c.max_requests_per_user_window)
  new_row-user_rate k u = elim (Bool-cases (kind_eq i.event_kind k && user_is u i.user_id)) [
    | inl hit ↦
        let (same_kind, same_user) = &&-eq-true _ _ hit in
        inr (
          rw hit (
            rw (← kind_eq_iff _ k same_kind)
              (admitted-user_rate u (user_is_iff u i.user_id same_user))))
    | inr miss ↦ inl (rw miss)
  ]

  new_row-kind :
      (span most : ℕ) (k : EventKind)
      → recent (of_kind i.event_kind) now span t + 1 ≤ most
      → (of_kind k (event_of i now event_id) ≡ 0)
        ⊎ (recent (of_kind k) now span t + of_kind k (event_of i now event_id) ≤ most)
  new_row-kind span most k fits = elim (Bool-cases (kind_eq i.event_kind k)) [
    | inl hit ↦ inr (rw hit (rw (← kind_eq_iff _ k hit) fits))
    | inr miss ↦ inl (rw miss)
  ]

  new_row-ip_rate :
      (k : EventKind) (ip : String)
      → (of_ip k ip (event_of i now event_id) ≡ 0)
        ⊎ (recent (of_ip k ip) now (window_ms c) t + of_ip k ip (event_of i now event_id)
            ≤ c.max_requests_global_window)
  new_row-ip_rate k ip = elim (Bool-cases (kind_eq i.event_kind k && str_eq i.ip_key ip)) [
    | inl hit ↦
        let (same_kind, same_ip) = &&-eq-true _ _ hit in
        inr (
          rw hit (rw (← kind_eq_iff _ k same_kind, ← (str_eq_iff _ ip).0 same_ip) admitted-ip_rate))
    | inr miss ↦ inl (rw miss)
  ]

  new_row-user_budget :
      (u : ℕ)
      → (user_units u (event_of i now event_id) ≡ 0)
        ⊎ (recent (user_units u) now (window_ms c) t + user_units u (event_of i now event_id)
            ≤ c.max_cost_units_per_user_window)
  new_row-user_budget u = elim (Bool-cases (user_is u i.user_id)) [
    | inl hit ↦ rw hit (admitted-user_budget u (user_is_iff u i.user_id hit))
    | inr miss ↦ inl (rw miss)
  ]

  pub append-IsWithin : IsWithin c t → IsWithin c (t ++ event_of i now event_id ∷ [])
  append-IsWithin h = record {
    user_rate = λ k u ne. append-IsBounded _ _ _ t _ (h.user_rate k u ne) (new_row-user_rate k u);
    window_rate = λ k ne.
        append-IsBounded _ _ _ t _ (h.window_rate k ne) (new_row-kind _ _ k admitted-window_rate);
    day_rate =
        λ k ne. append-IsBounded _ _ _ t _ (h.day_rate k ne) (new_row-kind _ _ k admitted-day_rate);
    ip_rate = λ k ip ne. append-IsBounded _ _ _ t _ (h.ip_rate k ip ne) (new_row-ip_rate k ip);
    user_budget = λ u. append-IsBounded _ _ _ t _ (h.user_budget u) (new_row-user_budget u);
    window_budget = append-IsBounded _ _ _ t _ h.window_budget (ground (arith, admitted-budgets));
    day_budget = append-IsBounded _ _ _ t _ h.day_budget (ground (arith, admitted-budgets));
  }
