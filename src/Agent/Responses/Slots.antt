-- ===== src/Agent/Responses/Slots.antt =====
-- The slots: how many are taken, and that none is idle while somebody waits.
use eveai.Base.{
  ℕ, zero, suc, ◌+◌, ◌≤◌, ◌≡◌, ◌≢◌, refl, Bool, true, false, some, List, [], ◌∷◌, ◌++◌, length,
  length-append, length-erase, get_elem?, get_elem?-append, get_elem?-set_self, set, contains,
  arith, Option-cases, ◌⊎◌, inl, inr,
}
use eveai.Agent.Responses.{
  ResponseAdmissionOptions, Controller, Event, acquires, releases, times_out, aborts, acquire,
  hand_over, release, give_up, AdmissionError, step, run, idle, live,
}

live-append : (xs ys : List Bool) → live (xs ++ ys) ≡ live xs + live ys
live-append [] ys = omega arith
live-append (x ∷ xs) ys = omega (arith, live-append xs ys)

live-set :
    (xs : List Bool) (i : ℕ) → get_elem? xs i ≡ some false → live (set xs i true) + 1 ≡ live xs
live-set [] i h = cc
live-set (x ∷ xs) zero h = ground arith
live-set (x ∷ xs) (suc i) h = omega (arith, live-set xs i h)

some_waiter : (w : ℕ) (ws : List ℕ) → contains w ws ≡ true → ws ≢ []
some_waiter w [] h = cc
some_waiter w (x ∷ ws) h = cc

-- `active` counts the closures that may still be called, no more than `maxConcurrent`; the queue
-- holds at most `maxQueued`; and while anybody waits every slot is taken.
pub record IsConsistent (o : ResponseAdmissionOptions) (s : Controller) : Type 0 where
  pub counted : s.active ≡ live s.permits
  pub within : s.active ≤ o.max_concurrent
  pub queued : length s.waiters ≤ o.max_queued
  pub busy : (s.waiters ≡ []) ⊎ (s.active ≡ o.max_concurrent)

module _ (o : ResponseAdmissionOptions) where
  acquire-IsConsistent :
      (s : Controller) (signal_aborted : Bool)
      → IsConsistent o s
      → IsConsistent o (acquire o s signal_aborted).0
  unfolding acquire
  acquire-IsConsistent s signal_aborted h =
      ground
        (arith, live-append s.permits (false ∷ []), length-append s.waiters (s.next_waiter ∷ []))

  hand_over-IsConsistent :
      (s : Controller) (ws : List ℕ)
      → s.active ≡ live s.permits + 1
      → s.active ≤ o.max_concurrent
      → length ws ≤ o.max_queued
      → (ws ≡ []) ⊎ (s.active ≡ o.max_concurrent)
      → s.waiters ≡ ws
      → IsConsistent o (hand_over s ws)
  unfolding hand_over
  hand_over-IsConsistent s [] counted within queued busy e = ground arith
  hand_over-IsConsistent s (w ∷ ws) counted within queued busy e =
      ground (arith, live-append s.permits (false ∷ []))

  release-IsConsistent :
      (s : Controller) (permit : ℕ) → IsConsistent o s → IsConsistent o (release s permit)
  unfolding release
  release-IsConsistent s permit h = elim (Option-cases (get_elem? s.permits permit)) [
    | inl e ↦ rw (e, release) h
    | inr (true, e) ↦ rw (e, release) h
    | inr (false, e) ↦
        rw (e, release)
          (hand_over-IsConsistent (record s { permits = set s.permits permit true }) s.waiters
            (omega (arith, h.counted, live-set s.permits permit e)) h.within h.queued h.busy refl)
  ]

  give_up-IsConsistent :
      (e : AdmissionError) (s : Controller) (w : ℕ)
      → IsConsistent o s
      → IsConsistent o (give_up e s w)
  unfolding give_up
  give_up-IsConsistent e s w h =
      ground (arith, h.busy, length-erase w s.waiters, some_waiter w s.waiters)

  step-IsConsistent : (s : Controller) (e : Event) → IsConsistent o s → IsConsistent o (step o s e)
  unfolding step
  step-IsConsistent s (acquires signal_aborted) h = acquire-IsConsistent s signal_aborted h
  step-IsConsistent s (releases permit) h = release-IsConsistent s permit h
  step-IsConsistent s (times_out w) h = give_up-IsConsistent _ s w h
  step-IsConsistent s (aborts w) h = give_up-IsConsistent _ s w h

  run_from-IsConsistent :
      (s : Controller) (es : List Event) → IsConsistent o s → IsConsistent o (run o s es)
  unfolding run
  run_from-IsConsistent s [] h = h
  run_from-IsConsistent s (e ∷ es) h =
      run_from-IsConsistent (step o s e) es (step-IsConsistent s e h)

-- After any events on a fresh controller: `active` is the number of release closures that were
-- handed out and not called yet, it is at most `maxConcurrent`, at most `maxQueued` callers wait,
-- and while anybody waits all slots are taken.
pub run-IsConsistent :
    (o : ResponseAdmissionOptions) (es : List Event) → IsConsistent o (run o idle es)
run-IsConsistent o es = run_from-IsConsistent o idle es (ground arith)

released-hand_over :
    (s : Controller) (ws : List ℕ) (permit : ℕ)
    → get_elem? s.permits permit ≡ some true
    → get_elem? (hand_over s ws).permits permit ≡ some true
unfolding hand_over
released-hand_over s [] permit h = h
released-hand_over s (w ∷ ws) permit h = get_elem?-append s.permits (false ∷ []) permit true h

release_again :
    (s : Controller) (permit : ℕ) → get_elem? s.permits permit ≡ some true → release s permit ≡ s
unfolding release
release_again s permit h = rw (h, release)

-- A call of a release closure after the first changes nothing, whatever state the first call met:
-- one slot is never given out twice.
pub release_twice :
    (s : Controller) (permit : ℕ) → release (release s permit) permit ≡ release s permit
unfolding release
release_twice s permit = elim (Option-cases (get_elem? s.permits permit)) [
  | inl e ↦ let nothing : release s permit ≡ s = rw (e, release) in rw nothing nothing
  | inr (true, e) ↦ release_again (release s permit) permit (rw (e, release) e)
  | inr (false, e) ↦ release_again (release s permit) permit (
      rw (e, release)
        (released-hand_over (record s { permits = set s.permits permit true }) s.waiters permit
          (get_elem?-set_self s.permits permit true false e)))
]
