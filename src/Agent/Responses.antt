-- ===== src/Agent/Responses.antt =====
-- src/agent/response-admission.ts: `ResponseAdmissionController`.
-- A release closure is known by its place in `permits`, which holds its flag `released`; a waiter
-- by the number `next_waiter` of its creation. What the waiter's promise was settled with is
-- logged in `settled`. A timer that was cleared and a listener that was removed do not fire, so
-- the two callbacks act on queued waiters only.
pub mod Slots
pub mod Waiters
pub mod Order
pub mod Examples
use eveai.Base.{
  ℕ, ◌+◌, ◌-◌, Bool, true, false, Option, none, some, List, [], ◌∷◌, ◌++◌, map, ltb, leb,
  if◌then◌else◌, length, get_elem?, set, erase, contains,
}

pub record ResponseAdmissionOptions : Type 0 where
  pub max_concurrent : ℕ
  pub max_queued : ℕ

pub data AdmissionError : Type 0 where
  aborted queue_full timed_out : AdmissionError

-- What a promise was settled with: a release closure, or an error.
pub data Settlement : Type 0 where
  resolved : (permit : ℕ) → Settlement
  refused : AdmissionError → Settlement

pub record Controller : Type 0 where
  pub active : ℕ
  pub waiters : List ℕ
  pub permits : List Bool
  pub next_waiter : ℕ
  pub settled : List (ℕ × Settlement)

pub data Answer : Type 0 where
  now : Settlement → Answer
  later : (waiter : ℕ) → Answer

abbrev pub idle : Controller
idle = record { active = 0; waiters = []; permits = []; next_waiter = 0; settled = [] }

-- `releaseOnce`: a fresh closure, not yet called.
release_once : List Bool → List Bool
release_once permits = permits ++ false ∷ []

unfoldable pub acquire :
    ResponseAdmissionOptions → Controller → (signal_aborted : Bool) → Controller × Answer
unfolding release_once
acquire o s signal_aborted =
    if signal_aborted
    then (s, now (refused aborted))
    else if ltb s.active o.max_concurrent
    then (
      record s { active = s.active + 1; permits = release_once s.permits },
      now (resolved (length s.permits)),
    )
    else if leb o.max_queued (length s.waiters)
    then (s, now (refused queue_full))
    else (
      record s { waiters = s.waiters ++ s.next_waiter ∷ []; next_waiter = s.next_waiter + 1 },
      later s.next_waiter,
    )

-- The body of the closure behind its guard: the slot goes to the oldest waiter, or is free.
pub hand_over : Controller → List ℕ → Controller
unfolding release_once
hand_over s [] = record s { active = s.active - 1 }
hand_over s (w ∷ ws) = record s {
  waiters = ws;
  permits = release_once s.permits;
  settled = s.settled ++ (w, resolved (length s.permits)) ∷ [];
}

release_by : Controller → ℕ → Option Bool → Controller
unfolding hand_over
release_by s permit none = s
release_by s permit (some true) = s
release_by s permit (some false) =
    let s' = record s { permits = set s.permits permit true } in hand_over s' s.waiters

-- A call of the closure `permit`; a second call finds `released` set.
unfoldable pub release : Controller → ℕ → Controller
unfolding release_by
release s permit = release_by s permit (get_elem? s.permits permit)

-- The timer's and the listener's callback: the waiter leaves the queue with an error.
pub give_up : AdmissionError → Controller → ℕ → Controller
give_up e s w =
    if contains w s.waiters
    then record s { waiters = erase w s.waiters; settled = s.settled ++ (w, refused e) ∷ [] }
    else s

pub data Event : Type 0 where
  acquires : (signal_aborted : Bool) → Event
  releases : (permit : ℕ) → Event
  times_out : (waiter : ℕ) → Event
  aborts : (waiter : ℕ) → Event

unfoldable pub step : ResponseAdmissionOptions → Controller → Event → Controller
unfolding acquire release give_up
step o s (acquires signal_aborted) = (acquire o s signal_aborted).0
step o s (releases permit) = release s permit
step o s (times_out w) = give_up timed_out s w
step o s (aborts w) = give_up aborted s w

unfoldable pub run : ResponseAdmissionOptions → Controller → List Event → Controller
unfolding step
run o s [] = s
run o s (e ∷ es) = run o (step o s e) es

-- The closures that were not called yet.
abbrev pub live : List Bool → ℕ
live [] = 0
live (r ∷ rs) = (if r then 0 else 1) + live rs

-- The waiters whose promise was settled, in order.
abbrev pub settled_waiters : Controller → List ℕ
settled_waiters s = map (λ p. p.0) s.settled
