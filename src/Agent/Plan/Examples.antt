-- ===== src/Agent/Plan/Examples.antt =====
-- Runs of the plan, and instances of its theorems.
use eveai.Base.{
  arith, ◌++◌, map, count_where, select_where, exists_where, delete_where, ◌≡◌, refl, String, false,
  none, some, List, [], ◌∷◌, find_where, str_eq,
}
use mathlib.Core.Option
use eveai.Agent.Plan.{
  Db, Plan, PlanRow, PlanStep, PlanStatus, StepStatus, returned, threw, pending, running, done,
  blocked, active, provider_failure, get_plan, update_plan, finalize_plan_failure,
  finalize_plan_completion, recover_interrupted_plans, replan_on_failure, prune_plans, insert_all,
}
use eveai.Agent.Plan.Turns.{
  complete_plan, recovered, finalize_plan_failure_lem, finalize_plan_completion_lem,
}
use eveai.Agent.Plan.Restart.{recover_interrupted_plans_lem}
use eveai.Agent.Plan.Replacing.{update_plan_lem}
use eveai.Agent.Plan.Inserts.{is_distinct}
use eveai.Agent.Plan.Replanning.{IsReplanned, replan_on_failure_lem}
use eveai.Agent.Plan.Retention.{prune_plans_keeps, prune_plans_removes}

abbrev step_at : String → StepStatus → List String → PlanStep
step_at id st depends_on = record {
  id = id;
  title = "step";
  status = st;
  depends_on = depends_on;
  notes = "";
}

abbrev three_steps : List PlanStep
three_steps = step_at "a" done [] ∷ step_at "b" running [] ∷ step_at "c" pending ("b" ∷ []) ∷ []

-- The database behind `updatePlan` of three steps.
abbrev with_plan : Db
with_plan = record {
  plans =
      record {
        request_id = "r";
        goal = "sell ore";
        status = active;
        created_at = 1000;
        updated_at = 1000;
      }
      ∷ [];
  plan_steps = map (λ s. record { request_id = "r"; step = s }) three_steps;
}

stores_plan :
    update_plan 1000 (record { plans = []; plan_steps = [] }) "r" "sell ore" three_steps ≡ (
      returned
          (record { request_id = "r"; goal = "sell ore"; status = active; steps = three_steps }),
      with_plan,
    )
unfolding update_plan insert_all delete_where exists_where
stores_plan = refl

-- A step id twice: the call throws, and the steps of the plan before are lost.
abbrev twice : List PlanStep
twice = step_at "a" done [] ∷ step_at "a" done [] ∷ []

update_plan_lem_example :
    ((update_plan 2000 with_plan "r" "haul ore" twice).0 ≡ threw)
    × (get_plan (update_plan 2000 with_plan "r" "haul ore" twice).1 "r"
        ≡ some (record { request_id = "r"; goal = "haul ore"; status = active; steps = [] }))
    × ((q : String)
        → str_eq "r" q ≡ false
        → get_plan (update_plan 2000 with_plan "r" "haul ore" twice).1 q ≡ get_plan with_plan q)
unfolding get_plan find_where is_distinct exists_where
update_plan_lem_example = update_plan_lem 2000 with_plan "r" "haul ore" twice

abbrev failed_plan : Plan
failed_plan = record {
  request_id = "r";
  goal = "sell ore";
  status = PlanStatus.failed;
  steps =
      step_at "a" done []
      ∷ record (step_at "b" StepStatus.failed []) { notes = "Turn stopped: provider_failure" }
      ∷ record (step_at "c" blocked ("b" ∷ [])) { notes = "Turn stopped: provider_failure" }
      ∷ [];
}

finalize_plan_failure_lem_example :
    ((finalize_plan_failure 5 with_plan "r" provider_failure).0 ≡ some failed_plan)
    × (get_plan (finalize_plan_failure 5 with_plan "r" provider_failure).1 "r" ≡ some failed_plan)
    × ((q : String)
        → str_eq "r" q ≡ false
        → get_plan (finalize_plan_failure 5 with_plan "r" provider_failure).1 q
          ≡ get_plan with_plan q)
unfolding get_plan find_where select_where
finalize_plan_failure_lem_example = finalize_plan_failure_lem 5 with_plan "r" provider_failure

finalize_plan_completion_lem_example :
    ((finalize_plan_completion 5 with_plan "r").0
      ≡ Option.map complete_plan (get_plan with_plan "r"))
    × (get_plan (finalize_plan_completion 5 with_plan "r").1 "r"
        ≡ Option.map complete_plan (get_plan with_plan "r"))
    × ((q : String)
        → str_eq "r" q ≡ false
        → get_plan (finalize_plan_completion 5 with_plan "r").1 q ≡ get_plan with_plan q)
finalize_plan_completion_lem_example = finalize_plan_completion_lem 5 with_plan "r"

recover_interrupted_plans_lem_example :
    ((recover_interrupted_plans 5 with_plan).0 ≡ 1)
    × ((q : String)
        → get_plan (recover_interrupted_plans 5 with_plan).1 q
          ≡ Option.map recovered (get_plan with_plan q))
unfolding count_where exists_where
recover_interrupted_plans_lem_example = recover_interrupted_plans_lem 5 with_plan (refl, tt)

-- Of two pending steps one depends on the step that runs.
abbrev stuck_plan : Db
stuck_plan = record with_plan {
  plan_steps =
      map (λ s. record { request_id = "r"; step = s })
        (three_steps ++ step_at "d" pending ("a" ∷ []) ∷ []);
}

replan_on_failure_lem_example :
    IsReplanned 5 stuck_plan "r" "no fuel" (replan_on_failure 5 stuck_plan "r" "no fuel")
unfolding is_distinct select_where exists_where
replan_on_failure_lem_example = replan_on_failure_lem 5 stuck_plan "r" "no fuel" refl

abbrev sold : PlanRow
sold = record {
  request_id = "r";
  goal = "sell ore";
  status = active;
  created_at = 1000;
  updated_at = 1000;
}

prune_plans_keeps_example :
    get_plan (prune_plans 604801000 with_plan 7).1 "r" ≡ get_plan with_plan "r"
unfolding find_where exists_where
prune_plans_keeps_example =
    prune_plans_keeps 604801000 7 with_plan (refl, tt) "r" sold refl (omega arith)

prune_plans_removes_example : get_plan (prune_plans 691201000 with_plan 7).1 "r" ≡ none
unfolding find_where exists_where
prune_plans_removes_example =
    prune_plans_removes 691201000 7 with_plan (refl, tt) "r" sold refl (omega arith)
