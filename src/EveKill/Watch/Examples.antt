-- ===== src/EveKill/Watch/Examples.antt =====
-- A run of the watches, and the theorem's instance.
use eveai.Base.{List, [], ◌∷◌, pos, arith, count_where}
use eveai.EveKill.Watch.{WatchCall, adds, removes, run_calls}
use eveai.EveKill.Watch.Limits.{IsCapped, run_calls-IsCapped}

abbrev calls : List WatchCall
calls =
    adds 1 10 (pos 3) "system.30000142" "Jita"
    ∷ adds 2 11 (pos 3) "system.30000142" ""
    ∷ removes (pos 3) "all"
    ∷ []

none-IsCapped : IsCapped []
unfolding count_where
none-IsCapped = record { bounded = λ c. omega arith; once = λ c t. omega arith }

run_calls-IsCapped_example : IsCapped (run_calls [] calls)
run_calls-IsCapped_example = run_calls-IsCapped calls [] none-IsCapped
