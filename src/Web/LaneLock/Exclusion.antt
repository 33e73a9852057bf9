-- ===== src/Web/LaneLock/Exclusion.antt =====
-- Which actions of a lane run: the chain of its tickets.
use eveai.Base.{
  ℕ, ◌≤◌, ◌≡◌, refl, sym, ◌∙◌, subst, Bool, true, false, ◌&&◌, Option, none, some, List, [], ◌∷◌,
  length, ◌==◌, ==_iff, if◌then◌else◌, arith, Bool-cases, Option-cases, ◌⊎◌, inl, inr,
}
use eveai.Web.LaneLock.{
  Ticket, Lane, is_settled, is_ready, in_action, set_released, enter, is_entry, leave, LaneEvent,
  enters, leaves, run_lane,
}

unfoldable pub all_released : List Ticket → Bool
all_released [] = true
all_released (t ∷ ts) = t.released && all_released ts

-- The newest ticket, or none if all are released.
abbrev pub IsLinked : List Ticket → Option ℕ → Type 0
IsLinked [] previous = previous ≡ none
IsLinked (t ∷ ts) previous =
    ((previous ≡ none) × (all_released (t ∷ ts) ≡ true)) ⊎ (previous ≡ some (length ts))

-- Each ticket waits for the one before.
unfoldable pub IsChained : List Ticket → Type 0
unfolding all_released
IsChained [] = Unit
IsChained (t ∷ ts) = IsLinked ts t.previous × IsChained ts

settled_newest :
    (t : Ticket) (ts : List Ticket)
    → is_settled (t ∷ ts) (length ts) ≡ (t.released && is_ready ts t.previous)
unfolding is_settled
settled_newest t ts =
    let own = (==_iff (length ts) (length ts)).1 refl in
    elim (Option-cases t.previous) [ inl e ↦ rw (own, e) refl | inr (p, e) ↦ rw (own, e) refl ]

-- A wait is over exactly if all tickets before are released.
is_ready_lem :
    (ts : List Ticket) (previous : Option ℕ)
    → IsLinked ts previous
    → IsChained ts
    → is_ready ts previous ≡ all_released ts
unfolding all_released IsChained is_ready
is_ready_lem [] none h c = refl
is_ready_lem [] (some p) h c = cc
is_ready_lem (t ∷ ts) none (inl h) c = sym h.1
is_ready_lem (t ∷ ts) none (inr h) c = cc
is_ready_lem (t ∷ ts) (some p) (inl h) c = cc
is_ready_lem (t ∷ ts) (some p) (inr h) c =
    let before = is_ready_lem ts t.previous c.0 c.1 in
    let at : p ≡ length ts = ground arith in rw (at, settled_newest t ts, before) refl

out_of_range : (ts : List Ticket) (i : ℕ) → length ts ≤ i → in_action ts i ≡ false
unfolding in_action
out_of_range [] i h = refl
out_of_range (t ∷ ts) i h = ground (arith, out_of_range ts i, ==_iff i (length ts))

released_idle : (ts : List Ticket) (i : ℕ) → all_released ts ≡ true → in_action ts i ≡ false
unfolding in_action all_released
released_idle [] i h = refl
released_idle (t ∷ ts) i h = ground (arith, released_idle ts i)

-- Two actions are the same.
one_action :
    (ts : List Ticket) (i j : ℕ)
    → IsChained ts
    → in_action ts i ≡ true
    → in_action ts j ≡ true
    → i ≡ j
unfolding in_action IsChained
one_action [] i j c h k = cc
one_action (t ∷ ts) i j c h k =
    let ready = is_ready_lem ts t.previous c.0 c.1 in
    elim (Bool-cases (i == length ts)) [
      | inl e ↦ elim (Bool-cases (j == length ts)) [
        | inl f ↦ ground (arith, ==_iff i (length ts), ==_iff j (length ts))
        | inr f ↦ absurd (ground (arith, released_idle ts j))
      ]
      | inr e ↦ elim (Bool-cases (j == length ts)) [
        | inl f ↦ absurd (ground (arith, released_idle ts i))
        | inr f ↦ one_action ts i j c.1 (rw e at h) (rw f at k)
      ]
    ]

newest_action :
    (t : Ticket) (ts : List Ticket)
    → is_ready ts t.previous ≡ true
    → t.released ≡ false
    → in_action (t ∷ ts) (length ts) ≡ true
unfolding in_action
newest_action t ts h k = rw ((==_iff (length ts) (length ts)).1 refl, h, k) refl

older_action :
    (t : Ticket) (ts : List Ticket) (i : ℕ) → in_action ts i ≡ true → in_action (t ∷ ts) i ≡ true
unfolding in_action
older_action t ts i h = elim (Bool-cases (i == length ts)) [
  | inl e ↦
      let idle = out_of_range ts i (omega (arith, (==_iff i (length ts)).0 e)) in
      absurd (let x : true ≡ false = sym h ∙ idle in cc)
  | inr e ↦ rw e h
]

-- While a ticket is not released, an action runs.
some_action :
    (ts : List Ticket) → IsChained ts → all_released ts ≡ false → (i : ℕ) × (in_action ts i ≡ true)
unfolding all_released IsChained
some_action [] c h = cc
some_action (t ∷ ts) c h = elim (Bool-cases (all_released ts)) [
  | inl e ↦
      let ready = is_ready_lem ts t.previous c.0 c.1 ∙ e in
      (length ts, newest_action t ts ready (ground arith))
  | inr e ↦ let (i, runs) = some_action ts c.1 e in (i, older_action t ts i runs)
]

-- The lane between two events.
pub record IsOrderly (s : Lane) : Type 0 where
  pub linked : IsLinked s.tickets s.entry
  pub chained : IsChained s.tickets

set_released-all :
    (ts : List Ticket) (i : ℕ) → all_released ts ≡ true → all_released (set_released ts i) ≡ true
unfolding all_released set_released
set_released-all [] i h = refl
set_released-all (t ∷ ts) i h = ground (arith, set_released-all ts i)

length-set_released : (ts : List Ticket) (i : ℕ) → length (set_released ts i) ≡ length ts
unfolding set_released
length-set_released [] i = refl
length-set_released (t ∷ ts) i = ground (arith, length-set_released ts i)

set_released-IsLinked :
    (ts : List Ticket) (i : ℕ) (previous : Option ℕ)
    → IsLinked ts previous
    → IsLinked (set_released ts i) previous
unfolding set_released all_released
set_released-IsLinked [] i previous h = h
set_released-IsLinked (t ∷ ts) i previous h = elim (Bool-cases (i == length ts)) [
  | inl e ↦ rw e (elim h [ inl (fresh, all) ↦ inl (fresh, ground arith) | inr newest ↦ inr newest ])
  | inr e ↦ rw e (elim h [
    | inl (fresh, all) ↦ inl (fresh, ground (arith, set_released-all ts i))
    | inr newest ↦ inr (rw (length-set_released ts i) newest)
  ])
]

set_released-IsChained : (ts : List Ticket) (i : ℕ) → IsChained ts → IsChained (set_released ts i)
unfolding set_released IsChained
set_released-IsChained [] i c = tt
set_released-IsChained (t ∷ ts) i c = elim (Bool-cases (i == length ts)) [
  | inl e ↦ rw e c
  | inr e ↦ rw e (set_released-IsLinked ts i t.previous c.0, set_released-IsChained ts i c.1)
]

-- The newest ticket leaves: all are released.
newest_leaves :
    (ts : List Ticket) (i : ℕ)
    → IsLinked ts (some i)
    → IsChained ts
    → in_action ts i ≡ true
    → IsLinked (set_released ts i) none
unfolding in_action set_released all_released IsChained
newest_leaves [] i h c k = cc
newest_leaves (t ∷ ts) i (inl h) c k = cc
newest_leaves (t ∷ ts) i (inr h) c k =
    let own : (i == length ts) ≡ true = (==_iff i (length ts)).1 (ground arith) in
    let runs = rw own at k in
    let ready = is_ready_lem ts t.previous c.0 c.1 in rw own (inl (refl, ground arith))

left_entry :
    (entry : Option ℕ) (ts : List Ticket) (i : ℕ)
    → IsLinked ts entry
    → IsChained ts
    → in_action ts i ≡ true
    → IsLinked (set_released ts i) (if is_entry entry i then none else entry)
left_entry none ts i h c k = set_released-IsLinked ts i none h
left_entry (some j) ts i h c k = elim (Bool-cases (j == i)) [
  | inl e ↦ rw e (newest_leaves ts i (subst (λ x. IsLinked ts (some x)) ((==_iff j i).0 e) h) c k)
  | inr e ↦ rw e (set_released-IsLinked ts i (some j) h)
]

leave-IsOrderly : (s : Lane) (i : ℕ) → IsOrderly s → IsOrderly (leave s i)
unfolding leave
leave-IsOrderly s i o = elim (Bool-cases (in_action s.tickets i)) [
  | inr e ↦ rw e o
  | inl e ↦ rw e (record {
    linked = left_entry s.entry s.tickets i o.linked o.chained e;
    chained = set_released-IsChained s.tickets i o.chained;
  })
]

enter-IsOrderly : (s : Lane) → IsOrderly s → IsOrderly (enter s)
unfolding IsChained
enter-IsOrderly s o = record { linked = inr refl; chained = (o.linked, o.chained) }

run_lane-IsOrderly : (es : List LaneEvent) (s : Lane) → IsOrderly s → IsOrderly (run_lane s es)
unfolding run_lane
run_lane-IsOrderly [] s o = o
run_lane-IsOrderly (enters ∷ es) s o = run_lane-IsOrderly es (enter s) (enter-IsOrderly s o)
run_lane-IsOrderly (leaves i ∷ es) s o = run_lane-IsOrderly es (leave s i) (leave-IsOrderly s i o)

-- Any two actions of the lane that run are the same.
abbrev pub IsExclusive : Lane → Type 0
unfolding in_action
IsExclusive s = (i j : ℕ) → in_action s.tickets i ≡ true → in_action s.tickets j ≡ true → i ≡ j

-- From a lane whose tickets wait one for another, as in an empty one: after any events at most one
-- action of the lane runs, and while a call has not ended one runs.
pub run_lane_lem :
    (es : List LaneEvent) (s : Lane)
    → IsOrderly s
    → IsExclusive (run_lane s es)
      × (all_released (run_lane s es).tickets ≡ false
          → (i : ℕ) × (in_action (run_lane s es).tickets i ≡ true))
unfolding IsExclusive
run_lane_lem es s o =
    let after = run_lane-IsOrderly es s o in
    (
      λ i j h k. one_action (run_lane s es).tickets i j after.chained h k,
      λ h. some_action (run_lane s es).tickets after.chained h,
    )
