-- ===== src/Agent/Responses/Order.antt =====
-- The order in which waiters get their slots.
use eveai.Base.{
  ℕ, ◌+◌, ◌<◌, ◌≡◌, refl, ◌∙◌, ap, Bool, true, false, List, [], ◌∷◌, ◌++◌, length, get_elem?, set,
  erase, All, All-append, All-mono, arith, ltb, leb, contains, ◌==◌, Bool-cases, Option-cases, inl,
  inr,
}
use mathlib.Core.List.{append_assoc}
use eveai.Agent.Responses.{
  ResponseAdmissionOptions, Controller, Event, acquires, releases, times_out, aborts, acquire,
  hand_over, release, give_up, AdmissionError, Settlement, resolved, refused, step, run, idle,
}

-- Each number is smaller than all behind it. A waiter's number is its place among the calls.
abbrev pub IsAscending : List ℕ → Type 0
IsAscending [] = Unit
IsAscending (w ∷ ws) = All (λ v. w < v) ws × IsAscending ws

-- The waiters that got a slot, in the order in which they did.
unfoldable pub served : List (ℕ × Settlement) → List ℕ
served [] = []
served ((w, resolved permit) ∷ settled) = w ∷ served settled
served ((w, refused e) ∷ settled) = served settled

-- Those that got a slot, then those that wait: the order of the calls.
pub record IsFifo (s : Controller) : Type 0 where
  pub ascending : IsAscending (served s.settled ++ s.waiters)
  pub known : All (λ w. w < s.next_waiter) (served s.settled ++ s.waiters)

served-resolved :
    (w permit : ℕ) (settled : List (ℕ × Settlement))
    → served (settled ++ (w, resolved permit) ∷ []) ≡ served settled ++ w ∷ []
unfolding served
served-resolved w permit [] = refl
served-resolved w permit ((v, resolved p) ∷ settled) =
    ap (λ x. v ∷ x) (served-resolved w permit settled)
served-resolved w permit ((v, refused e) ∷ settled) = served-resolved w permit settled

served-refused :
    (w : ℕ) (e : AdmissionError) (settled : List (ℕ × Settlement))
    → served (settled ++ (w, refused e) ∷ []) ≡ served settled
unfolding served
served-refused w e [] = refl
served-refused w e ((v, resolved p) ∷ settled) = ap (λ x. v ∷ x) (served-refused w e settled)
served-refused w e ((v, refused e') ∷ settled) = served-refused w e settled

IsAscending-snoc :
    (ws : List ℕ) (w : ℕ) → IsAscending ws → All (λ v. v < w) ws → IsAscending (ws ++ w ∷ [])
IsAscending-snoc [] w a h = (tt, tt)
IsAscending-snoc (v ∷ ws) w a h =
    (All-append (λ u. v < u) ws (w ∷ []) a.0 (h.0, tt), IsAscending-snoc ws w a.1 h.1)

All-erase : (P : ℕ → Type 0) (w : ℕ) (us ws : List ℕ) → All P (us ++ ws) → All P (us ++ erase w ws)
All-erase P w [] [] h = h
All-erase P w [] (v ∷ ws) h = elim (Bool-cases (v == w)) [
  | inl e ↦ rw e h.1
  | inr e ↦ rw e (h.0, All-erase P w [] ws h.1)
]
All-erase P w (u ∷ us) ws h = (h.0, All-erase P w us ws h.1)

IsAscending-erase :
    (w : ℕ) (us ws : List ℕ) → IsAscending (us ++ ws) → IsAscending (us ++ erase w ws)
IsAscending-erase w [] [] a = a
IsAscending-erase w [] (v ∷ ws) a = elim (Bool-cases (v == w)) [
  | inl e ↦ rw e a.1
  | inr e ↦ rw e (All-erase (λ u. v < u) w [] ws a.0, IsAscending-erase w [] ws a.1)
]
IsAscending-erase w (u ∷ us) ws a =
    (All-erase (λ v. u < v) w us ws a.0, IsAscending-erase w us ws a.1)

-- The queue with one waiter more.
joined-IsFifo :
    (s : Controller)
    → IsFifo s
    → IsFifo
        (record s { waiters = s.waiters ++ s.next_waiter ∷ []; next_waiter = s.next_waiter + 1 })
joined-IsFifo s f =
    let order = append_assoc (served s.settled) s.waiters (s.next_waiter ∷ []) in
    let all = served s.settled ++ s.waiters in
    record {
      ascending = rw (← order) (IsAscending-snoc all s.next_waiter f.ascending f.known);
      known = rw (← order) (
          All-append (λ v. v < s.next_waiter + 1) all (s.next_waiter ∷ [])
            (All-mono (λ v h. omega arith) all f.known) (omega arith, tt));
    }

acquire-IsFifo :
    (o : ResponseAdmissionOptions) (s : Controller) (signal_aborted : Bool)
    → IsFifo s
    → IsFifo (acquire o s signal_aborted).0
unfolding acquire
acquire-IsFifo o s true f = f
acquire-IsFifo o s false f = elim (Bool-cases (ltb s.active o.max_concurrent)) [
  | inl free ↦ rw free (record { ascending = f.ascending; known = f.known })
  | inr busy ↦ elim (Bool-cases (leb o.max_queued (length s.waiters))) [
    | inl full ↦ rw (busy, full) f
    | inr room ↦ rw (busy, room) (joined-IsFifo s f)
  ]
]

hand_over-IsFifo :
    (s : Controller) (ws : List ℕ) → s.waiters ≡ ws → IsFifo s → IsFifo (hand_over s ws)
unfolding hand_over
hand_over-IsFifo s [] e f = record { ascending = f.ascending; known = f.known }
hand_over-IsFifo s (w ∷ ws) e f =
    let moved =
      ap (λ x. x ++ ws) (served-resolved w (length s.permits) s.settled)
      ∙ append_assoc (served s.settled) (w ∷ []) ws in
    record { ascending = rw moved (rw e at f.ascending); known = rw moved (rw e at f.known) }

release-IsFifo : (s : Controller) (permit : ℕ) → IsFifo s → IsFifo (release s permit)
unfolding release
release-IsFifo s permit f = elim (Option-cases (get_elem? s.permits permit)) [
  | inl e ↦ rw (e, release) f
  | inr (true, e) ↦ rw (e, release) f
  | inr (false, e) ↦
      rw (e, release)
        (hand_over-IsFifo (record s { permits = set s.permits permit true }) s.waiters refl
          (record { ascending = f.ascending; known = f.known }))
]

give_up-IsFifo : (e : AdmissionError) (s : Controller) (w : ℕ) → IsFifo s → IsFifo (give_up e s w)
unfolding give_up
give_up-IsFifo e s w f = elim (Bool-cases (contains w s.waiters)) [
  | inl waits ↦ rw waits (record {
    ascending =
        rw (served-refused w e s.settled)
          (IsAscending-erase w (served s.settled) s.waiters f.ascending);
    known =
        rw (served-refused w e s.settled)
          (All-erase (λ v. v < s.next_waiter) w (served s.settled) s.waiters f.known);
  })
  | inr gone ↦ rw gone f
]

step-IsFifo :
    (o : ResponseAdmissionOptions) (s : Controller) (e : Event) → IsFifo s → IsFifo (step o s e)
unfolding step
step-IsFifo o s (acquires signal_aborted) f = acquire-IsFifo o s signal_aborted f
step-IsFifo o s (releases permit) f = release-IsFifo s permit f
step-IsFifo o s (times_out w) f = give_up-IsFifo _ s w f
step-IsFifo o s (aborts w) f = give_up-IsFifo _ s w f

run_from-IsFifo :
    (o : ResponseAdmissionOptions) (s : Controller) (es : List Event)
    → IsFifo s
    → IsFifo (run o s es)
unfolding run
run_from-IsFifo o s [] f = f
run_from-IsFifo o s (e ∷ es) f = run_from-IsFifo o (step o s e) es (step-IsFifo o s e f)

-- After any events on a fresh controller: the waiters that got a slot got it in the order of their
-- calls of `acquire`, the queue stands in that order too, and who got a slot called before
-- everybody who still waits.
pub run-IsFifo : (o : ResponseAdmissionOptions) (es : List Event) → IsFifo (run o idle es)
unfolding served
run-IsFifo o es = run_from-IsFifo o idle es (record { ascending = tt; known = tt })
