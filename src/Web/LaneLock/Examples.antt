-- ===== src/Web/LaneLock/Examples.antt =====
-- Three calls on a lane, and the theorem's instance.
use eveai.Base.{ℕ, ◌≡◌, refl, true, false, none, List, [], ◌∷◌}
use eveai.Web.LaneLock.{Lane, in_action, LaneEvent, enters, leaves, run_lane}
use eveai.Web.LaneLock.Exclusion.{all_released, IsChained, IsOrderly, IsExclusive, run_lane_lem}

abbrev free_lane : Lane
free_lane = record { tickets = []; entry = none }

abbrev busy_day : List LaneEvent
busy_day = enters ∷ enters ∷ leaves 0 ∷ enters ∷ leaves 2 ∷ []

-- The second call runs; the third waits and cannot end.
second_runs : in_action (run_lane free_lane busy_day).tickets 1 ≡ true
unfolding run_lane in_action
second_runs = refl

free_lane-IsOrderly : IsOrderly free_lane
unfolding IsChained
free_lane-IsOrderly = record { linked = refl; chained = tt }

run_lane_lem_example :
    IsExclusive (run_lane free_lane busy_day)
    × (all_released (run_lane free_lane busy_day).tickets ≡ false
        → (i : ℕ) × (in_action (run_lane free_lane busy_day).tickets i ≡ true))
run_lane_lem_example = run_lane_lem busy_day free_lane free_lane-IsOrderly
