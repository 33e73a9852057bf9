-- ===== src/Agent/Responses/Waiters.antt =====
-- The promises of the waiters: the queue and what is settled.
use eveai.Base.{
  ℕ, ◌+◌, ◌≡◌, refl, Bool, true, false, List, [], ◌∷◌, ◌++◌, map, length, get_elem?, set,
  occurrences, occurrences-append, occurrences-erase, arith, ltb, if◌then◌else◌, ◌==◌, Option-cases,
  inl, inr,
}
use eveai.Agent.Responses.{
  ResponseAdmissionOptions, Controller, Event, acquires, releases, times_out, aborts, acquire,
  hand_over, release, give_up, AdmissionError, Settlement, resolved, refused, step, run, idle,
  settled_waiters,
}

-- How often the number of a waiter stands in the queue or among the settled promises.
abbrev pub places : ℕ → Controller → ℕ
places w s = occurrences w s.waiters + occurrences w (settled_waiters s)

-- A waiter that was created stands in one of the two, once; a later number in none.
abbrev pub IsAccounted : Controller → Type 0
IsAccounted s = (w : ℕ) → places w s ≡ (if ltb w s.next_waiter then 1 else 0)

occurrences-settle :
    (w v : ℕ) (r : Settlement) (settled : List (ℕ × Settlement))
    → occurrences w (map (λ p. p.0) (settled ++ (v, r) ∷ []))
      ≡ occurrences w (map (λ p. p.0) settled) + (if v == w then 1 else 0)
occurrences-settle w v r [] = omega arith
occurrences-settle w v r ((u, q) ∷ settled) = omega (arith, occurrences-settle w v r settled)

acquire-IsAccounted :
    (o : ResponseAdmissionOptions) (s : Controller) (signal_aborted : Bool)
    → IsAccounted s
    → IsAccounted (acquire o s signal_aborted).0
unfolding acquire
acquire-IsAccounted o s signal_aborted h w =
    ground (arith, h w, occurrences-append w s.waiters (s.next_waiter ∷ []))

hand_over-places :
    (s : Controller) (ws : List ℕ) (w : ℕ)
    → s.waiters ≡ ws
    → (places w (hand_over s ws) ≡ places w s) × ((hand_over s ws).next_waiter ≡ s.next_waiter)
unfolding hand_over
hand_over-places s [] w e = ground arith
hand_over-places s (v ∷ ws) w e =
    (rw e (omega (arith, occurrences-settle w v (resolved (length s.permits)) s.settled)), refl)

release-IsAccounted : (s : Controller) (permit : ℕ) → IsAccounted s → IsAccounted (release s permit)
unfolding release
release-IsAccounted s permit h w = elim (Option-cases (get_elem? s.permits permit)) [
  | inl e ↦ rw (e, release) (h w)
  | inr (true, e) ↦ rw (e, release) (h w)
  | inr (false, e) ↦
      let (kept, next) =
        hand_over-places (record s { permits = set s.permits permit true }) s.waiters w refl in
      rw (e, release) (rw (kept, next) (h w))
]

give_up-IsAccounted :
    (e : AdmissionError) (s : Controller) (v : ℕ) → IsAccounted s → IsAccounted (give_up e s v)
unfolding give_up
give_up-IsAccounted e s v h w =
    ground
      (arith, h w, occurrences-erase v w s.waiters, occurrences-settle w v (refused e) s.settled)

step-IsAccounted :
    (o : ResponseAdmissionOptions) (s : Controller) (e : Event)
    → IsAccounted s
    → IsAccounted (step o s e)
unfolding step
step-IsAccounted o s (acquires signal_aborted) h = acquire-IsAccounted o s signal_aborted h
step-IsAccounted o s (releases permit) h = release-IsAccounted s permit h
step-IsAccounted o s (times_out w) h = give_up-IsAccounted _ s w h
step-IsAccounted o s (aborts w) h = give_up-IsAccounted _ s w h

run_from-IsAccounted :
    (o : ResponseAdmissionOptions) (s : Controller) (es : List Event)
    → IsAccounted s
    → IsAccounted (run o s es)
unfolding run
run_from-IsAccounted o s [] h = h
run_from-IsAccounted o s (e ∷ es) h =
    run_from-IsAccounted o (step o s e) es (step-IsAccounted o s e h)

-- After any events on a fresh controller each waiter that was created is either still queued or
-- settled, and either once: no promise is lost and none is settled twice.
pub run-IsAccounted : (o : ResponseAdmissionOptions) (es : List Event) → IsAccounted (run o idle es)
run-IsAccounted o es = run_from-IsAccounted o idle es (λ w. ground arith)
