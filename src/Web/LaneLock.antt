-- ===== src/Web/LaneLock.antt =====
-- src/web/web-lane-lock.ts: the authorization lock of one chat lane. The entries of different lanes
-- in `webLaneAuthorizationLocks` share nothing, so one lane stands here.
-- A ticket is one call of withWebLaneAuthorizationLock, numbered by its place among the calls of the
-- lane; `queued` of a ticket is the promise behind its gate and behind the one before. One event is
-- a call, or the end of an action (it returns or throws) with its `finally`.
pub mod Exclusion
mod Examples
use eveai.Base.{
  ℕ, ◌+◌, Bool, true, false, not, ◌&&◌, Option, none, some, List, [], ◌∷◌, length, ◌==◌,
  if◌then◌else◌,
}

pub record Ticket : Type 0 where
  -- `previous`: the ticket whose `queued` is awaited, or a resolved promise.
  pub previous : Option ℕ
  -- `release` was called.
  pub released : Bool

-- The tickets, newest first, and the entry of the map.
pub record Lane : Type 0 where
  pub tickets : List Ticket
  pub entry : Option ℕ

-- Is `queued` of the ticket resolved?
unfoldable pub is_settled : List Ticket → ℕ → Bool
is_settled [] i = true
is_settled (t ∷ ts) i =
    let before = elim t.previous as (λ _. Bool) [ none ↦ true | some p ↦ is_settled ts p ] in
    let rest = is_settled ts i in if i == length ts then t.released && before else rest

-- `await previous` is over.
abbrev pub is_ready : List Ticket → Option ℕ → Bool
unfolding is_settled
is_ready ts none = true
is_ready ts (some p) = is_settled ts p

-- The action of the ticket runs: its wait is over and it is not released.
unfoldable pub in_action : List Ticket → ℕ → Bool
unfolding is_settled
in_action [] i = false
in_action (t ∷ ts) i =
    let rest = in_action ts i in
    if i == length ts then is_ready ts t.previous && not t.released else rest

unfoldable pub set_released : List Ticket → ℕ → List Ticket
set_released [] i = []
set_released (t ∷ ts) i =
    let rest = set_released ts i in
    if i == length ts then record t { released = true } ∷ ts else t ∷ rest

-- The call up to its `await`.
abbrev pub enter : Lane → Lane
enter s = record {
  tickets = record { previous = s.entry; released = false } ∷ s.tickets;
  entry = some (length s.tickets);
}

abbrev pub is_entry : Option ℕ → ℕ → Bool
is_entry none i = false
is_entry (some j) i = j == i

-- The end of the action and the `finally`. What does not run does not end.
unfoldable pub leave : Lane → ℕ → Lane
unfolding in_action set_released
leave s i =
    if in_action s.tickets i
    then record {
      tickets = set_released s.tickets i;
      entry = if is_entry s.entry i then none else s.entry;
    }
    else s

pub data LaneEvent : Type 0 where
  enters : LaneEvent
  leaves : (ticket : ℕ) → LaneEvent

unfoldable pub run_lane : Lane → List LaneEvent → Lane
unfolding leave
run_lane s [] = s
run_lane s (enters ∷ es) = run_lane (enter s) es
run_lane s (leaves i ∷ es) = run_lane (leave s i) es
