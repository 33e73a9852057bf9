-- ===== src/Cli/InputQueue/Examples.antt =====
-- Runs of the input queue, and instances of its theorems.
use eveai.Base.{◌≡◌, refl, true, List, [], ◌∷◌, ◌++◌, map}
use eveai.Cli.InputQueue.{
  LineQueue, resolved, rejected, create_input_queue, Event, pushed, settled, run, is_busy,
}
use eveai.Cli.InputQueue.Order.{
  IsSerial, IsDrained, lines_of, last_suppressed, run-IsSerial, settles-IsDrained,
}

abbrev pasted : List Event
pasted = pushed "a" ∷ pushed "b" ∷ pushed "c" ∷ settled rejected ∷ []

-- The second of three lines is processed.
abbrev working : LineQueue
unfolding run
working = run create_input_queue pasted

working_lem : working.handled ≡ "a" ∷ "b" ∷ []
unfolding working run
working_lem = refl

fresh-IsSerial : IsSerial [] create_input_queue
unfolding is_busy
fresh-IsSerial = record { order = refl; idle = λ _. refl }

run-IsSerial_example : IsSerial ([] ++ lines_of pasted) (run create_input_queue pasted)
run-IsSerial_example = run-IsSerial pasted [] create_input_queue fresh-IsSerial

settles-IsDrained_example :
    IsDrained working
      (last_suppressed true (rejected ∷ []))
      (run working (map settled (resolved true ∷ rejected ∷ [])))
unfolding working run is_busy
settles-IsDrained_example =
    settles-IsDrained ("c" ∷ []) working (resolved true) (rejected ∷ []) refl refl refl
