-- ===== src/Agent/Plan/Changes.antt =====
-- What `replanOnFailure` does to each step of a plan.
use eveai.Base.{
  ◌≡◌, ◌≢◌, ◌⊎◌, refl, sym, Bool-cases, str_eq_iff, String, true, false, List, [], ◌∷◌, map, arith,
  inl, inr, str_eq,
}
use mathlib.Core.List.{Memᴰ, Forall₂}
use Prim.Native.String.{◌++◌ as str_append}
use eveai.Agent.Plan.{PlanStep, replan_step, includes, StepStatus, pending, is_pending, blocked}

-- A step behind a failure of the step `failed_id`: this one failed with the error, a pending one
-- that depends on it is blocked, and any other is as it was.
pub data StepChange (failed_id error : String) (s : PlanStep) : PlanStep → Type 0 where
  fails :
      s.id ≡ failed_id
      → StepChange failed_id error s (record {
        id = s.id;
        title = s.title;
        status = StepStatus.failed;
        depends_on = s.depends_on;
        notes = error;
      })
  waits :
      s.id ≢ failed_id
      → Memᴰ failed_id s.depends_on
      → s.status ≡ pending
      → StepChange failed_id error s (record {
        id = s.id;
        title = s.title;
        status = blocked;
        depends_on = s.depends_on;
        notes = str_append "Blocked: dependency " (str_append failed_id " failed");
      })
  stays :
      s.id ≢ failed_id
      → (¬ Memᴰ failed_id s.depends_on) ⊎ (s.status ≢ pending)
      → StepChange failed_id error s s

includes-Mem : (ds : List String) (id : String) → includes ds id ≡ true → Memᴰ id ds
unfolding includes
includes-Mem [] id h = cc
includes-Mem (d ∷ ds) id h = elim (Bool-cases (str_eq d id)) [
  | inl e ↦ Memᴰ.head (sym ((str_eq_iff d id).0 e))
  | inr e ↦ Memᴰ.tail (includes-Mem ds id (rw e at h))
]

Mem-includes : (id : String) (ds : List String) → Memᴰ id ds → includes ds id ≡ true
unfolding includes
Mem-includes id ds (Memᴰ.head {x} e) = rw ((str_eq_iff x id).1 (sym e)) refl
Mem-includes id ds (Memᴰ.tail m) = ground (arith, Mem-includes id _ m)

pending-eq : (st : StepStatus) → is_pending st ≡ true → st ≡ pending
pending-eq st h = ground arith

not_pending : (st : StepStatus) → is_pending st ≡ false → st ≢ pending
not_pending st h e = absurd (let x = rw e at h in cc)

replan_step-StepChange :
    (failed_id error : String) (s : PlanStep)
    → StepChange failed_id error s (replan_step failed_id error s)
replan_step-StepChange failed_id error s = elim (Bool-cases (str_eq s.id failed_id)) [
  | inl own ↦ rw own (fails ((str_eq_iff s.id failed_id).0 own))
  | inr other ↦
      let apart : s.id ≢ failed_id = λ same. (let x = (str_eq_iff s.id failed_id).1 same in cc) in
      elim (Bool-cases (includes s.depends_on failed_id)) [
        | inr free ↦
            rw (other, free)
              (stays apart (inl (λ m. (let x = Mem-includes failed_id s.depends_on m in cc))))
        | inl waits_for ↦ elim (Bool-cases (is_pending s.status)) [
          | inl e ↦
              rw (other, waits_for, e)
                (waits apart (includes-Mem s.depends_on failed_id waits_for)
                  (pending-eq s.status e))
          | inr e ↦ rw (other, waits_for, e) (stays apart (inr (not_pending s.status e)))
        ]
      ]
]

pub map-StepChange :
    (failed_id error : String) (ss : List PlanStep)
    → Forall₂ (StepChange failed_id error) ss (map (replan_step failed_id error) ss)
map-StepChange failed_id error [] = Forall₂.nil
map-StepChange failed_id error (s ∷ ss) =
    Forall₂.cons (replan_step-StepChange failed_id error s) (map-StepChange failed_id error ss)
