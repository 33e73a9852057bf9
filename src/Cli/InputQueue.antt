-- ===== src/Cli/InputQueue.antt =====
-- src/cli/input-queue.ts: the lines of readline, processed one at a time and in order.
-- One event is what runs without a break: a push with the pump up to `await`, or the pump from a
-- settled `handleLine` to the next `await`. The calls of `handleLine`, `onDrained` and `onError` are
-- recorded; the last two are taken not to throw.
pub mod Order
mod Examples
use eveai.Base.{
  ℕ, suc, ◌+◌, String, Bool, true, false, Option, none, some, List, [], ◌∷◌, ◌++◌, length,
  if◌then◌else◌,
}

pub record LineQueue : Type 0 where
  pub queue : List String
  -- `processing`, with the line.
  pub processing : Option String
  -- The calls of `handleLine` and `onDrained`, the oldest first, and the number of those of `onError`.
  pub handled : List String
  pub drained : List Bool
  pub errors : ℕ

-- How a call of `handleLine` settles.
pub data LineEnd : Type 0 where
  resolved : (prompt_suppressed : Bool) → LineEnd
  rejected : LineEnd

abbrev pub create_input_queue : LineQueue
create_input_queue = record {
  queue = [];
  processing = none;
  handled = [];
  drained = [];
  errors = 0;
}

-- `while (queue.length > 0)` up to the `await`, or its end with what stands behind the loop.
unfoldable pub take_next : Bool → LineQueue → LineQueue
take_next prompt_suppressed s = elim s.queue [
  | [] ↦ record s { processing = none; drained = s.drained ++ prompt_suppressed ∷ [] }
  | line ∷ rest ↦ record s {
    queue = rest;
    processing = some line;
    handled = s.handled ++ line ∷ [];
  }
]

unfoldable pub is_busy : LineQueue → Bool
is_busy s = elim s.processing [ none ↦ false | some line ↦ true ]

abbrev pub size : LineQueue → ℕ
size s = length s.queue

-- `pump` when it is called.
abbrev pump : LineQueue → LineQueue
unfolding is_busy take_next
pump s = if is_busy s then s else take_next false s

unfoldable pub push : LineQueue → String → LineQueue
unfolding pump
push s line = pump (record s { queue = s.queue ++ line ∷ [] })

-- The value that `promptSuppressed` gets.
abbrev pub suppressed : LineEnd → Bool
suppressed (resolved b) = b
suppressed rejected = false

abbrev pub report : LineEnd → LineQueue → LineQueue
report (resolved b) s = s
report rejected s = record s { errors = suc s.errors }

-- The pump behind the `await`. Nothing settles while nothing is processed.
unfoldable pub settle : LineQueue → LineEnd → LineQueue
unfolding is_busy take_next
settle s r = if is_busy s then take_next (suppressed r) (report r s) else s

pub data Event : Type 0 where
  pushed : (line : String) → Event
  settled : LineEnd → Event

unfoldable pub step : LineQueue → Event → LineQueue
unfolding push settle
step s (pushed line) = push s line
step s (settled r) = settle s r

unfoldable pub run : LineQueue → List Event → LineQueue
unfolding step
run s [] = s
run s (e ∷ es) = run (step s e) es
