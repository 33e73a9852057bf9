-- ===== src/Web/Requests/Rows/Moves.antt =====
-- How a row of `web_agent_requests` may change, and how the table may.
use eveai.Base.{
  ℕ, ◌≤◌, ◌<◌, ◌≡◌, refl, ◌∙◌, Bool, true, false, not, ◌||◌, Option, none, some, List, [], ◌∷◌,
  ◌++◌, All, arith, if◌then◌else◌, length, Bool-cases, inl, inr, update_where, delete_where,
}
use eveai.Web.Requests.Rows.{
  RequestStatus, queued, running, completed, failed, cancelled, RequestRow, status_eq, is_active,
  max_activity_items, max_stream_text_chars,
}

abbrev pub is_some {ℓ} : {A : Type ℓ} → Option A → Bool
is_some none = false
is_some (some a) = true

-- The statuses that a status may lead to: a queued request to any, a running one to an end, and
-- an end to itself alone.
abbrev pub leads_to : RequestStatus → RequestStatus → Bool
leads_to queued s = true
leads_to running s = not (status_eq s queued)
leads_to r s = status_eq r s

-- What never changes in a row.
pub record SameRequest (r r' : RequestRow) : Type 0 where
  pub request_id : r'.request_id ≡ r.request_id
  pub user_id : r'.user_id ≡ r.user_id
  pub chat_id : r'.chat_id ≡ r.chat_id
  pub thread_id : r'.thread_id ≡ r.thread_id
  pub message : r'.message ≡ r.message
  pub message_hash : r'.message_hash ≡ r.message_hash
  pub idempotency_key : r'.idempotency_key ≡ r.idempotency_key
  pub cost_reserved : r'.cost_reserved ≡ r.cost_reserved
  pub created_at_ms : r'.created_at_ms ≡ r.created_at_ms

-- A row that has ended does not change at all; `progress_sequence` does not fall, and grows with
-- every change of the status; a request for cancellation is never withdrawn, keeps a queued row
-- from being claimed, and keeps a row from being completed. Without `claims` no row starts to run.
pub record Advance (claims : Bool) (r r' : RequestRow) : Type 0 where
  pub same : SameRequest r r'
  pub status : leads_to r.status r'.status ≡ true
  pub frozen : is_active r.status ≡ false → r' ≡ r
  pub progress : r.progress_sequence ≤ r'.progress_sequence
  pub announced : status_eq r.status r'.status ≡ false → r.progress_sequence < r'.progress_sequence
  pub sticky : r.cancel_requested ≡ true → r'.cancel_requested ≡ true
  pub unclaimed :
      r.cancel_requested ≡ true
      → status_eq r'.status running ≡ true
      → status_eq r.status running ≡ true
  pub calm : claims ≡ false → status_eq r'.status running ≡ true → status_eq r.status running ≡ true
  pub cancel_wins :
      r.cancel_requested ≡ true
      → status_eq r'.status completed ≡ true
      → status_eq r.status completed ≡ true

pub Advance-refl : {c : Bool} (r : RequestRow) → Advance c r r
Advance-refl r = ground arith

same_trans : {r s t : RequestRow} → SameRequest r s → SameRequest s t → SameRequest r t
same_trans h k = record {
  request_id = cc;
  user_id = cc;
  chat_id = cc;
  thread_id = cc;
  message = cc;
  message_hash = cc;
  idempotency_key = cc;
  cost_reserved = cc;
  created_at_ms = cc;
}

leads_to_trans :
    (a b c : RequestStatus) → leads_to a b ≡ true → leads_to b c ≡ true → leads_to a c ≡ true
leads_to_trans a b c h k = ground arith

announced_trans :
    (a b c : RequestStatus) {l m n : ℕ}
    → (status_eq a b ≡ false → l < m)
    → l ≤ m
    → (status_eq b c ≡ false → m < n)
    → m ≤ n
    → status_eq a c ≡ false
    → l < n
announced_trans a b c h h' k k' e = ground arith

pub Advance-trans : {c : Bool} {r s t : RequestRow} → Advance c r s → Advance c s t → Advance c r t
Advance-trans {r} {s} {t} h k = record {
  same = same_trans h.same k.same;
  status = leads_to_trans r.status s.status t.status h.status k.status;
  frozen = λ e. k.frozen (rw (h.frozen e) e) ∙ h.frozen e;
  progress = omega arith;
  announced = λ e.
      announced_trans r.status s.status t.status h.announced h.progress k.announced k.progress e;
  sticky = λ e. k.sticky (h.sticky e);
  unclaimed = λ e f. h.unclaimed e (k.unclaimed (h.sticky e) f);
  calm = λ e f. h.calm e (k.calm e f);
  cancel_wins = λ e f. h.cancel_wins e (k.cancel_wins (h.sticky e) f);
}

-- Does a row leave the table? An UPDATE deletes nothing.
abbrev pub none_leave : RequestRow → Bool
none_leave r = false

-- The table after some statements: rows advance in place, some leave it, and the rows `new` stand
-- at the end.
pub data Evolves (claims : Bool) (leaves : RequestRow → Bool) (new : List RequestRow)
    : List RequestRow → List RequestRow → Type 0 where
  added : Evolves claims leaves new [] new
  kept :
      {r r' : RequestRow} {rs rs' : List RequestRow}
      → Advance claims r r'
      → Evolves claims leaves new rs rs'
      → Evolves claims leaves new (r ∷ rs) (r' ∷ rs')
  dropped :
      {r : RequestRow} {rs rs' : List RequestRow}
      → leaves r ≡ true
      → Evolves claims leaves new rs rs'
      → Evolves claims leaves new (r ∷ rs) rs'

pub Evolves-refl :
    {c : Bool} {leaves : RequestRow → Bool} (rs : List RequestRow) → Evolves c leaves [] rs rs
Evolves-refl [] = added
Evolves-refl (r ∷ rs) = kept (Advance-refl r) (Evolves-refl rs)

pub Evolves-append :
    {c : Bool} {leaves : RequestRow → Bool} (rs new : List RequestRow)
    → Evolves c leaves new rs (rs ++ new)
Evolves-append [] new = added
Evolves-append (r ∷ rs) new = kept (Advance-refl r) (Evolves-append rs new)

pub Evolves-trans :
    {c : Bool} {rs ss ts : List RequestRow}
    → Evolves c none_leave [] rs ss
    → Evolves c none_leave [] ss ts
    → Evolves c none_leave [] rs ts
Evolves-trans added k = k
Evolves-trans (kept a h) (kept b k) = kept (Advance-trans a b) (Evolves-trans h k)
Evolves-trans (kept a h) (dropped e k) = cc
Evolves-trans (dropped e h) k = cc

-- What is true of each row at every moment.
pub record IsWellFormed (r : RequestRow) : Type 0 where
  pub billed : r.cost_actual ≡ (if status_eq r.status completed then r.cost_reserved else 0)
  pub activity : length r.activity ≤ max_activity_items
  pub stream : length r.stream_text ≤ max_stream_text_chars
  pub result : status_eq r.status completed ≡ false → r.result_text ≡ none
  pub finished : is_some r.finished_at ≡ not (is_active r.status)
  pub leased : is_some r.lease_expires_at ≡ status_eq r.status running
  pub blamed : is_some r.error_code ≡ (status_eq r.status failed || status_eq r.status cancelled)

-- What statements do: they add no row, advance the others, and keep them well-formed.
pub record Moved (claims : Bool) (leaves : RequestRow → Bool) (rs rs' : List RequestRow)
    : Type 0 where
  pub evolves : Evolves claims leaves [] rs rs'
  pub well_formed : All IsWellFormed rs → All IsWellFormed rs'

-- What each UPDATE does.
abbrev pub IsLawful : Bool → List RequestRow → List RequestRow → Type 0
IsLawful claims rs rs' = Moved claims none_leave rs rs'

pub IsLawful-refl : {c : Bool} (rs : List RequestRow) → IsLawful c rs rs
IsLawful-refl rs = record { evolves = Evolves-refl rs; well_formed = λ h. h }

Advance-weaken : {c : Bool} {r r' : RequestRow} → Advance false r r' → Advance c r r'
Advance-weaken a = record {
  same = a.same;
  status = a.status;
  frozen = a.frozen;
  progress = a.progress;
  announced = a.announced;
  sticky = a.sticky;
  unclaimed = a.unclaimed;
  calm = λ e. a.calm refl;
  cancel_wins = a.cancel_wins;
}

Evolves-weaken :
    {c : Bool} {l : RequestRow → Bool} {new rs ss : List RequestRow}
    → Evolves false l new rs ss
    → Evolves c l new rs ss
Evolves-weaken added = added
Evolves-weaken (kept a h) = kept (Advance-weaken a) (Evolves-weaken h)
Evolves-weaken (dropped e h) = dropped e (Evolves-weaken h)

pub Moved-weaken :
    {c : Bool} {l : RequestRow → Bool} {rs ss : List RequestRow}
    → Moved false l rs ss
    → Moved c l rs ss
Moved-weaken h = record { evolves = Evolves-weaken h.evolves; well_formed = h.well_formed }

-- Where no row leaves, it does not matter which might.
none_leave-Evolves :
    {c : Bool} {l : RequestRow → Bool} {rs ss : List RequestRow}
    → Evolves c none_leave [] rs ss
    → Evolves c l [] rs ss
none_leave-Evolves added = added
none_leave-Evolves (kept a h) = kept a (none_leave-Evolves h)
none_leave-Evolves (dropped e h) = cc

pub IsLawful-Moved :
    {c : Bool} {l : RequestRow → Bool} {rs ss : List RequestRow}
    → IsLawful c rs ss
    → Moved c l rs ss
IsLawful-Moved h = record { evolves = none_leave-Evolves h.evolves; well_formed = h.well_formed }

pub IsLawful-weaken : {c : Bool} {rs ss : List RequestRow} → IsLawful false rs ss → IsLawful c rs ss
IsLawful-weaken h = Moved-weaken h

pub IsLawful-trans :
    {c : Bool} {rs ss ts : List RequestRow} → IsLawful c rs ss → IsLawful c ss ts → IsLawful c rs ts
IsLawful-trans h k = record {
  evolves = Evolves-trans h.evolves k.evolves;
  well_formed = λ w. k.well_formed (h.well_formed w);
}

pub IsLawful-update :
    {c : Bool} (p : RequestRow → Bool) (f : RequestRow → RequestRow)
    → ((r : RequestRow) → p r ≡ true → Advance c r (f r) × (IsWellFormed r → IsWellFormed (f r)))
    → (rs : List RequestRow) → IsLawful c rs (update_where p f rs)
unfolding update_where
IsLawful-update p f each [] = IsLawful-refl []
IsLawful-update p f each (r ∷ rs) =
    let rest = IsLawful-update p f each rs in
    elim (Bool-cases (p r)) [
      | inl hit ↦ rw hit record {
        evolves = kept (each r hit).0 rest.evolves;
        well_formed = λ h. ((each r hit).1 h.0, rest.well_formed h.1);
      }
      | inr miss ↦ rw miss record {
        evolves = kept (Advance-refl r) rest.evolves;
        well_formed = λ h. (h.0, rest.well_formed h.1);
      }
    ]

-- An UPDATE of the rows at `p` and then a DELETE of the rows at `q`: the rows that `leaves` names
-- leave, and the others advance.
pub Moved-update_delete :
    {c : Bool} (p q leaves : RequestRow → Bool) (f : RequestRow → RequestRow)
    → ((r : RequestRow) → p r ≡ true → Advance c r (f r) × (IsWellFormed r → IsWellFormed (f r)))
    → ((r : RequestRow) → q (if p r then f r else r) ≡ leaves r)
    → (rs : List RequestRow) → Moved c leaves rs (delete_where q (update_where p f rs))
unfolding update_where delete_where
Moved-update_delete p q leaves f each same [] = record { evolves = added; well_formed = λ h. h }
Moved-update_delete p q leaves f each same (r ∷ rs) =
    let rest = Moved-update_delete p q leaves f each same rs in
    elim (Bool-cases (leaves r)) [
      | inl gone ↦
          rw (same r, gone)
            (record {
              evolves = dropped gone rest.evolves;
              well_formed = λ h. rest.well_formed h.1;
            })
      | inr here ↦ elim (Bool-cases (p r)) [
        | inl hit ↦
            rw (same r, here, hit)
              (record {
                evolves = kept (each r hit).0 rest.evolves;
                well_formed = λ h. ((each r hit).1 h.0, rest.well_formed h.1);
              })
        | inr miss ↦
            rw (same r, here, miss)
              (record {
                evolves = kept (Advance-refl r) rest.evolves;
                well_formed = λ h. (h.0, rest.well_formed h.1);
              })
      ]
    ]
