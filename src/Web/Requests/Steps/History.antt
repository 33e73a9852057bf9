-- ===== src/Web/Requests/Steps/History.antt =====
-- The table of requests over any history of the coordinator.
use mathlib.Core.List.{Memᴰ}
use eveai.Base.{
  ℕ, ◌≡◌, refl, String, Bool, true, false, List, [], ◌∷◌, ◌++◌, All, All-append, All-mono, arith,
  ◌⊎◌, inl, inr,
}
use eveai.Web.Requests.Rows.{RequestRow}
use eveai.Web.Requests.Rows.Moves.{
  Advance, Advance-refl, Advance-trans, Evolves, added, kept, dropped, Evolves-append, Evolves-refl,
  IsWellFormed, Moved, Moved-weaken,
}
use eveai.Web.Requests.State.{Config, Coordinator}
use eveai.Web.Requests.Queue.{EnqueueInput, enqueue}
use eveai.Web.Requests.Steps.{Event, enqueues, Surroundings, step, run}
use eveai.Web.Requests.Steps.Moves.{
  enqueue-requests, asked_row, is_enqueue, is_drain, leaves_at, step-Moved,
}

Moved-at :
    (c : Bool) {l : RequestRow → Bool} {rs ss : List RequestRow}
    → Moved c l rs ss
    → Moved true l rs ss
Moved-at true h = h
Moved-at false h = Moved-weaken h

-- The row `r` stands in the table at an event that may take it out.
abbrev pub LeftIn : Surroundings → Coordinator → List (ℕ × Event) → RequestRow → Type 0
LeftIn w s [] r = ⊥
LeftIn w s ((clock, e) ∷ es) r =
    (Memᴰ r s.requests × (leaves_at w.config e r ≡ true)) ⊎ LeftIn w (step w clock s e) es r

-- A call of `enqueue` added the row from which `t` has advanced, behind the others.
abbrev pub JoinedAt : Surroundings → ℕ → Coordinator → Event → RequestRow → Type 0
JoinedAt w clock s (enqueues i now id) t =
    ((step w clock s (enqueues i now id)).requests
      ≡ s.requests ++ asked_row w.hash_message i now id ∷ [])
    × Advance true (asked_row w.hash_message i now id) t
JoinedAt w clock s e t = ⊥

abbrev pub JoinedIn : Surroundings → Coordinator → List (ℕ × Event) → RequestRow → Type 0
JoinedIn w s [] t = ⊥
JoinedIn w s ((clock, e) ∷ es) t = JoinedAt w clock s e t ⊎ JoinedIn w (step w clock s e) es t

-- A table and a later one: what has become of each row, and where the further rows are from.
pub data History (Left Joined : RequestRow → Type 0)
    : List RequestRow → List RequestRow → Type 0 where
  joined : {new : List RequestRow} → All Joined new → History Left Joined [] new
  stays :
      {r r' : RequestRow} {rs rs' : List RequestRow}
      → Advance true r r'
      → History Left Joined rs rs'
      → History Left Joined (r ∷ rs) (r' ∷ rs')
  left :
      {r r' : RequestRow} {rs rs' : List RequestRow}
      → Advance true r r'
      → Left r'
      → History Left Joined rs rs'
      → History Left Joined (r ∷ rs) rs'

-- One event before a history.
module _ {leaves : RequestRow → Bool} {Left Joined Left' Joined' : RequestRow → Type 0}
    (later : (r : RequestRow) → Left r → Left' r) where
  precede :
      {new rs ss ts : List RequestRow}
      → ((us : List RequestRow) → History Left Joined new us → All Joined' us)
      → Evolves true leaves new rs ss
      → All (λ r. leaves r ≡ true → Left' r) rs
      → History Left Joined ss ts
      → History Left' Joined' rs ts
  precede join added here k = joined (join _ k)
  precede join (kept a h) here (stays b k) = stays (Advance-trans a b) (precede join h here.1 k)
  precede join (kept a h) here (left {r' = gone} b l k) =
      left (Advance-trans a b) (later gone l) (precede join h here.1 k)
  precede join (dropped {r} e h) here k = left (Advance-refl r) (here.0 e) (precede join h here.1 k)

All-Mem :
    {P : RequestRow → Type 0} (rs : List RequestRow)
    → ((r : RequestRow) → Memᴰ r rs → P r)
    → All P rs
All-Mem [] f = tt
All-Mem (r ∷ rs) f = (f r (Memᴰ.head refl), All-Mem rs (λ x m. f x (Memᴰ.tail m)))

no_more :
    {Left Joined Joined' : RequestRow → Type 0}
    → ((r : RequestRow) → Joined r → Joined' r)
    → (us : List RequestRow) → History Left Joined [] us
    → All Joined' us
no_more f us (joined h) = All-mono f us h

one_more :
    {Left Joined Joined' : RequestRow → Type 0} (row : RequestRow)
    → ((r : RequestRow) → Joined r → Joined' r)
    → ((r : RequestRow) → Advance true row r → Joined' r)
    → (us : List RequestRow) → History Left Joined (row ∷ []) us
    → All Joined' us
one_more row f g us (stays {r' = r} a (joined h)) = (g r a, All-mono f _ h)
one_more row f g us (left a l (joined h)) = All-mono f us h

abbrev pub Evolution : Surroundings → Coordinator → List (ℕ × Event) → Type 0
Evolution w s es = History (LeftIn w s es) (JoinedIn w s es) s.requests (run w s es).requests

History-refl :
    {Left Joined : RequestRow → Type 0} (rs : List RequestRow) → History Left Joined rs rs
History-refl [] = joined tt
History-refl (r ∷ rs) = stays (Advance-refl r) (History-refl rs)

-- An event that is not a call of `enqueue`, before the history `es`.
before_other :
    (w : Surroundings) (clock : ℕ) (s : Coordinator) (e : Event) (es : List (ℕ × Event))
    → is_enqueue e ≡ false
    → Evolution w (step w clock s e) es
    → Evolution w s ((clock, e) ∷ es)
unfolding run
before_other w clock s e es other k =
    precede (λ r l. inr l) (no_more (λ r j. inr j))
      (Moved-at (is_drain e) (step-Moved w clock s e other)).evolves
      (All-Mem s.requests (λ r m l. inl (m, l))) k

before_enqueue :
    (w : Surroundings) (clock : ℕ) (s : Coordinator) (i : EnqueueInput) (now : ℕ) (id : String)
    (es : List (ℕ × Event))
    → Evolution w (step w clock s (enqueues i now id)) es
    → Evolution w s ((clock, enqueues i now id) ∷ es)
unfolding run step
before_enqueue w clock s i now id es k =
    elim (enqueue-requests w.hash_message w.config s i now id) [
      | inl e ↦
          precede (λ r l. inr l) (no_more (λ r j. inr j)) (Evolves-refl s.requests)
            (All-Mem s.requests (λ r m l. inl (m, l))) (rw e at k)
      | inr e ↦
          precede (λ r l. inr l)
            (one_more (asked_row w.hash_message i now id) (λ r j. inr j) (λ r a. inl (e, a)))
            (Evolves-append s.requests (asked_row w.hash_message i now id ∷ []))
            (All-Mem s.requests (λ r m l. inl (m, l))) (rw e at k)
    ]

step-Evolution :
    (w : Surroundings) (clock : ℕ) (s : Coordinator) (e : Event) (es : List (ℕ × Event))
    → Evolution w (step w clock s e) es
    → Evolution w s ((clock, e) ∷ es)
unfolding run
step-Evolution w clock s (enqueues i now id) es k = before_enqueue w clock s i now id es k
step-Evolution w clock s e es k = before_other w clock s e es refl k

-- Over any events, whatever the times and the surroundings, each row of the table advances in its
-- place: its request and its cost stay, its status follows queued, running, ended; once ended
-- nothing of it changes; its progress number does not fall, and grows with each change of the
-- status; and a row whose cancellation was requested is neither claimed nor completed. A row
-- is missing later only if at a restart of the history it stood in the table, not queued and older
-- than the retention. Each further row stands behind the others, and has advanced from the row that
-- a call of `enqueue` in the history added.
pub run-Evolution : (w : Surroundings) (s : Coordinator) (es : List (ℕ × Event)) → Evolution w s es
unfolding run
run-Evolution w s [] = History-refl s.requests
run-Evolution w s ((clock, e) ∷ es) =
    step-Evolution w clock s e es (run-Evolution w (step w clock s e) es)

enqueue-IsWellFormed :
    (hash_message : String → String → String) (c : Config) (s : Coordinator) (i : EnqueueInput)
    (now : ℕ) (request_id : String)
    → All IsWellFormed s.requests
    → All IsWellFormed (enqueue hash_message c s i now request_id).1.requests
enqueue-IsWellFormed hash_message c s i now request_id h =
    elim (enqueue-requests hash_message c s i now request_id) [
      | inl e ↦ rw e h
      | inr e ↦ rw e (
          All-append IsWellFormed s.requests (asked_row hash_message i now request_id ∷ []) h
            (ground arith, tt))
    ]

step-IsWellFormed :
    (w : Surroundings) (clock : ℕ) (s : Coordinator) (e : Event)
    → All IsWellFormed s.requests
    → All IsWellFormed (step w clock s e).requests
unfolding step
step-IsWellFormed w clock s (enqueues i now id) h =
    enqueue-IsWellFormed w.hash_message w.config s i now id h
step-IsWellFormed w clock s e h = (step-Moved w clock s e refl).well_formed h

-- A table of well-formed rows stays one over any events: only a completed row has a cost and a
-- result, and its cost is what was reserved; a row has an end time exactly if it has ended, a
-- lease exactly while it runs, and an error exactly if it failed or was cancelled; the activity
-- and the streamed text stay within their caps.
pub run-IsWellFormed :
    (w : Surroundings) (s : Coordinator) (es : List (ℕ × Event))
    → All IsWellFormed s.requests
    → All IsWellFormed (run w s es).requests
unfolding run
run-IsWellFormed w s [] h = h
run-IsWellFormed w s ((clock, e) ∷ es) h =
    run-IsWellFormed w (step w clock s e) es (step-IsWellFormed w clock s e h)
