-- ===== src/Agent/Responses/Examples.antt =====
-- Runs of the admission controller, and instances of its theorems.
use eveai.Base.{◌≡◌, refl, true, false, List, [], ◌∷◌}
use eveai.Agent.Responses.{
  ResponseAdmissionOptions, Controller, Event, acquires, releases, times_out, resolved, refused,
  timed_out, run, release, idle,
}
use eveai.Agent.Responses.Slots.{IsConsistent, run-IsConsistent, release_twice}
use eveai.Agent.Responses.Waiters.{IsAccounted, run-IsAccounted}
use eveai.Agent.Responses.Order.{IsFifo, run-IsFifo}

abbrev one_slot : ResponseAdmissionOptions
one_slot = record { max_concurrent = 1; max_queued = 2 }

abbrev history : List Event
history =
    acquires false
    ∷ acquires false
    ∷ acquires false
    ∷ acquires false
    ∷ times_out 0
    ∷ releases 0
    ∷ releases 0
    ∷ []

-- The second caller times out, so the third gets the slot of the first.
abbrev waiting : Controller
waiting = record {
  active = 1;
  waiters = 1 ∷ [];
  permits = false ∷ [];
  next_waiter = 2;
  settled = (0, refused timed_out) ∷ [];
}

runs_history : run one_slot idle history ≡ record {
  active = 1;
  waiters = [];
  permits = true ∷ false ∷ [];
  next_waiter = 2;
  settled = (0, refused timed_out) ∷ (1, resolved 1) ∷ [];
}
unfolding run
runs_history = refl

run-IsConsistent_example : IsConsistent one_slot (run one_slot idle history)
run-IsConsistent_example = run-IsConsistent one_slot history

release_twice_example : release (release waiting 0) 0 ≡ release waiting 0
release_twice_example = release_twice waiting 0

run-IsAccounted_example : IsAccounted (run one_slot idle history)
run-IsAccounted_example = run-IsAccounted one_slot history

run-IsFifo_example : IsFifo (run one_slot idle history)
run-IsFifo_example = run-IsFifo one_slot history
