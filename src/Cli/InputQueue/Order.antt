-- ===== src/Cli/InputQueue/Order.antt =====
-- The order of the lines, and how a queue is drained.
use eveai.Base.{
  ◌≡◌, refl, sym, ap, subst, Bool-cases, inl, inr, ◌∙◌, String, Bool, true, false, none, some, List,
  [], ◌∷◌, ◌++◌, length, arith, map,
}
use mathlib.Core.List.{append_assoc, append-nil}
use eveai.Cli.InputQueue.{
  LineQueue, LineEnd, resolved, rejected, is_busy, push, suppressed, settle, take_next, report,
  Event, pushed, settled, step, run,
}

-- The lines of the pushes.
unfoldable pub lines_of : List Event → List String
lines_of [] = []
lines_of (pushed line ∷ es) = line ∷ lines_of es
lines_of (settled r ∷ es) = lines_of es

-- The lines that are handled and those that wait are those that were pushed, in this order, and
-- nothing waits while nothing is processed.
pub record IsSerial (lines : List String) (s : LineQueue) : Type 0 where
  pub order : s.handled ++ s.queue ≡ lines
  pub idle : is_busy s ≡ false → s.queue ≡ []

module _ (b : Bool) (s : LineQueue) where
  take_next-none :
      s.queue ≡ [] → take_next b s ≡ record s { processing = none; drained = s.drained ++ b ∷ [] }
  unfolding take_next
  take_next-none e = rw e refl

  take_next-some :
      (line : String) (rest : List String)
      → s.queue ≡ line ∷ rest
      → take_next b s
        ≡ record s { queue = rest; processing = some line; handled = s.handled ++ line ∷ [] }
  unfolding take_next
  take_next-some line rest e = rw e refl

  take_next-IsSerial :
      (lines q : List String)
      → s.queue ≡ q
      → s.handled ++ q ≡ lines
      → IsSerial lines (take_next b s)
  unfolding is_busy
  take_next-IsSerial lines [] e h = rw (take_next-none e) (record { order = rw e h; idle = λ _. e })
  take_next-IsSerial lines (line ∷ rest) e h =
      rw (take_next-some line rest e)
        (record { order = append_assoc s.handled (line ∷ []) rest ∙ h; idle = λ x. cc })

push-IsSerial :
    (lines : List String) (s : LineQueue) (line : String)
    → IsSerial lines s
    → IsSerial (lines ++ line ∷ []) (push s line)
unfolding push is_busy
push-IsSerial lines s line i =
    let next = record s { queue = s.queue ++ line ∷ [] } in
    let order : s.handled ++ (s.queue ++ line ∷ []) ≡ lines ++ line ∷ [] =
      sym (append_assoc s.handled s.queue (line ∷ [])) ∙ ap (λ x. x ++ line ∷ []) i.order in
    elim (Bool-cases (is_busy s)) [
      | inl e ↦
          rw e
            (record { order = order; idle = λ x. absurd (let y : true ≡ false = sym e ∙ x in cc) })
      | inr e ↦
          rw e
            (take_next-IsSerial false next (lines ++ line ∷ []) (s.queue ++ line ∷ []) refl order)
    ]

settle-IsSerial :
    (lines : List String) (s : LineQueue) (r : LineEnd)
    → IsSerial lines s
    → IsSerial lines (settle s r)
unfolding settle
settle-IsSerial lines s (resolved b) i = elim (Bool-cases (is_busy s)) [
  | inl e ↦ rw e (take_next-IsSerial b s lines s.queue refl i.order)
  | inr e ↦ rw e i
]
settle-IsSerial lines s rejected i = elim (Bool-cases (is_busy s)) [
  | inl e ↦ rw e (take_next-IsSerial false (report rejected s) lines s.queue refl i.order)
  | inr e ↦ rw e i
]

-- If the lines that are handled and wait are those that were pushed before, in order, and nothing
-- waits while nothing is processed, then so it is after any events.
pub run-IsSerial :
    (es : List Event) (lines : List String) (s : LineQueue)
    → IsSerial lines s
    → IsSerial (lines ++ lines_of es) (run s es)
unfolding run step lines_of
run-IsSerial [] lines s i = rw (append-nil lines) i
run-IsSerial (pushed line ∷ es) lines s i =
    subst (λ x. IsSerial x (run (push s line) es)) (append_assoc lines (line ∷ []) (lines_of es))
      (run-IsSerial es (lines ++ line ∷ []) (push s line) (push-IsSerial lines s line i))
run-IsSerial (settled r ∷ es) lines s i =
    run-IsSerial es lines (settle s r) (settle-IsSerial lines s r i)

-- The result of the last settlement.
unfoldable pub last_suppressed : Bool → List LineEnd → Bool
last_suppressed b [] = b
last_suppressed b (r ∷ rs) = last_suppressed (suppressed r) rs

settle_busy :
    (s : LineQueue) (r : LineEnd)
    → is_busy s ≡ true
    → settle s r ≡ take_next (suppressed r) (report r s)
unfolding settle
settle_busy s r e = rw e refl

-- The queue is drained: all lines are handled, and `onDrained` is called once more.
pub record IsDrained (s : LineQueue) (b : Bool) (t : LineQueue) : Type 0 where
  pub idle : is_busy t ≡ false
  pub empty : t.queue ≡ []
  pub all : t.handled ≡ s.handled ++ s.queue
  pub told : t.drained ≡ s.drained ++ b ∷ []

-- A settlement goes on to the next line.
record IsNext (s : LineQueue) (line : String) (rest : List String) (t : LineQueue) : Type 0 where
  pub busy : is_busy t ≡ true
  pub rest_queue : t.queue ≡ rest
  pub one_more : t.handled ≡ s.handled ++ line ∷ []
  pub untold : t.drained ≡ s.drained

settle-IsNext :
    (s : LineQueue) (r : LineEnd) (line : String) (rest : List String)
    → is_busy s ≡ true
    → s.queue ≡ line ∷ rest
    → IsNext s line rest (settle s r)
unfolding is_busy
settle-IsNext s (resolved b) line rest h e =
    rw (settle_busy s (resolved b) h, take_next-some b s line rest e)
      (record { busy = refl; rest_queue = refl; one_more = refl; untold = refl })
settle-IsNext s rejected line rest h e =
    rw (settle_busy s rejected h, take_next-some false (report rejected s) line rest e)
      (record { busy = refl; rest_queue = refl; one_more = refl; untold = refl })

settle-IsDrained :
    (s : LineQueue) (r : LineEnd)
    → is_busy s ≡ true
    → s.queue ≡ []
    → IsDrained s (suppressed r) (settle s r)
unfolding is_busy
settle-IsDrained s (resolved b) h e =
    rw (settle_busy s (resolved b) h, take_next-none b s e)
      (record { idle = refl; empty = e; all = rw e (sym (append-nil s.handled)); told = refl })
settle-IsDrained s rejected h e =
    rw (settle_busy s rejected h, take_next-none false (report rejected s) e)
      (record { idle = refl; empty = e; all = rw e (sym (append-nil s.handled)); told = refl })

-- A queue that processes a line and has others behind it is drained once this line and those are
-- settled, whether they are resolved or rejected.
pub settles-IsDrained :
    (rest : List String) (s : LineQueue) (r : LineEnd) (rs : List LineEnd)
    → is_busy s ≡ true
    → s.queue ≡ rest
    → length rs ≡ length rest
    → IsDrained s (last_suppressed (suppressed r) rs) (run s (map settled (r ∷ rs)))
unfolding run step last_suppressed
settles-IsDrained [] s r [] busy e h = settle-IsDrained s r busy e
settles-IsDrained [] s r (r' ∷ rs) busy e h = absurd (omega arith)
settles-IsDrained (line ∷ rest) s r [] busy e h = absurd (omega arith)
settles-IsDrained (line ∷ rest) s r (r' ∷ rs) busy e h =
    let next = settle-IsNext s r line rest busy e in
    let d = settles-IsDrained rest (settle s r) r' rs next.busy next.rest_queue (omega arith) in
    record {
      idle = d.idle;
      empty = d.empty;
      all =
          d.all ∙ rw (next.one_more, next.rest_queue, e) (append_assoc s.handled (line ∷ []) rest);
      told = d.told ∙ ap (λ x. x ++ last_suppressed (suppressed r') rs ∷ []) next.untold;
    }
