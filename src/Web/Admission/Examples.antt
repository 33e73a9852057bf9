-- ===== src/Web/Admission/Examples.antt =====
-- Runs of the admission checks on small tables, and instances of the theorems.
use eveai.Base.{ℕ, ◌≤◌, ◌≡◌, refl, ◌↔◌, some, List, [], ◌∷◌, ◌++◌, sum_of}
use eveai.Web.Admission.{
  chat, AdmissionEvent, AdmissionInput, Limits, admitted, rejected, window_ms, day_ms, of_user,
  of_kind, of_ip, user_units, units, event_of, admit_web_event, user_requests_full, recent, admit,
  new_session, prune, Operation, run,
}
use eveai.Web.Admission.Windows.{within}
use eveai.Web.Admission.Runs.{run-rates, run-budgets}
use eveai.Web.Admission.Outcomes.{Fits, IsRefusal, admit_web_event_lem}

abbrev limits : Limits
limits = record {
  request_window_seconds = 60;
  max_requests_per_user_window = 2;
  max_requests_global_window = 3;
  max_requests_global_day = 10;
  max_cost_units_per_user_window = 8;
  max_cost_units_global_window = 12;
  max_cost_units_global_day = 40;
  session_creation_window_seconds = 60;
  max_session_creations_per_window = 5;
}

abbrev asks : ℕ → AdmissionInput
asks u = record { event_kind = chat; user_id = some u; ip_key = "ip"; cost_units = 4 }

abbrev history : List Operation
history =
    admit (asks 1) 1000 "a"
    ∷ new_session 7 "ip" 1500 "s"
    ∷ admit (asks 1) 2000 "b"
    ∷ admit (asks 1) 3000 "c"
    ∷ prune 1200
    ∷ admit (asks 2) 900 "d"
    ∷ []

abbrev full : List AdmissionEvent
full = event_of (asks 1) 1000 "a" ∷ event_of (asks 1) 2000 "b" ∷ []

third_refused :
    admit_web_event limits full (asks 1) 3000 "c"
    ≡ (rejected 429 "Слишком много запросов. Попробуйте позже." 60, full)
unfolding admit_web_event user_requests_full recent sum_of
third_refused = refl

run-rates_example :
    (within (of_user chat 1) 500 (window_ms limits) (run limits [] history) ≤ 2)
    × (within (of_kind chat) 500 (window_ms limits) (run limits [] history) ≤ 3)
    × (within (of_ip chat "ip") 500 (window_ms limits) (run limits [] history) ≤ 3)
    × (within (of_kind chat) 500 day_ms (run limits [] history) ≤ 10)
run-rates_example = run-rates limits history chat 1 "ip" 500 (cc)

run-budgets_example :
    (within (user_units 1) 500 (window_ms limits) (run limits [] history) ≤ 8)
    × (within units 500 (window_ms limits) (run limits [] history) ≤ 12)
    × (within units 500 day_ms (run limits [] history) ≤ 40)
run-budgets_example = run-budgets limits history 1 500

admit_web_event_lem_example :
    (((admit_web_event limits full (asks 1) 3000 "c").0 ≡ admitted)
      ↔ Fits limits full (asks 1) 3000)
    × (Fits limits full (asks 1) 3000
        → admit_web_event limits full (asks 1) 3000 "c"
          ≡ (admitted, full ++ event_of (asks 1) 3000 "c" ∷ []))
    × (¬ Fits limits full (asks 1) 3000
        → ((admit_web_event limits full (asks 1) 3000 "c").1 ≡ full)
          × IsRefusal (admit_web_event limits full (asks 1) 3000 "c").0)
admit_web_event_lem_example = admit_web_event_lem limits full (asks 1) 3000 "c"
