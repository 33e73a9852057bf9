-- ===== src/Web/Requests/Steps/Retries.antt =====
-- A caller that repeats its call under the same key.
use eveai.Base.{
  ℕ, ◌≡◌, refl, String, Bool, true, false, Option, none, some, List, [], ◌∷◌, ◌++◌, int_eq_iff,
  ==_iff, str_eq, str_eq_refl, arith, Bool-cases, Option-cases, inl, inr, find_where,
}
use eveai.Web.Requests.Rows.{RequestRow}
use eveai.Web.Requests.State.{Config, Coordinator}
use eveai.Web.Requests.Queue.{
  RequestDto, EnqueueInput, accepted, new_row, schedule_drain, enqueue, queue_request, same_key,
  to_dto, repeat_request,
}

-- The row that answers a repeated call.
abbrev IsAnswer : String → EnqueueInput → RequestRow → Type 0
IsAnswer hash i x = (str_eq x.thread_id i.thread_id ≡ true) × (str_eq x.message_hash hash ≡ true)

repeat_request-accepted :
    (hash : String) (i : EnqueueInput) (x : RequestRow) (d : Option RequestDto) (existing : Bool)
    → repeat_request hash i x ≡ accepted d existing
    → IsAnswer hash i x
repeat_request-accepted hash i x d existing h = ground arith

-- An admitted request stands behind the others.
queue_request-accepted :
    (c : Config) (s : Coordinator) (i : EnqueueInput) (row : RequestRow) (d : Option RequestDto)
    (existing : Bool)
    → (queue_request c s i row).0 ≡ accepted d existing
    → ((queue_request c s i row).1.closed ≡ s.closed)
      × ((queue_request c s i row).1.requests ≡ s.requests ++ row ∷ [])
unfolding queue_request schedule_drain
queue_request-accepted c s i row d existing h = ground arith

find_where-append_none :
    (i : EnqueueInput) (rs : List RequestRow) (r : RequestRow)
    → find_where (same_key i) rs ≡ none
    → same_key i r ≡ true
    → find_where (same_key i) (rs ++ r ∷ []) ≡ some r
unfolding find_where
find_where-append_none i [] r h k = rw k refl
find_where-append_none i (x ∷ rs) r h k = elim (Bool-cases (same_key i x)) [
  | inl e ↦ let y = rw e at h in cc
  | inr e ↦ let y = rw e at h in rw e (find_where-append_none i rs r y k)
]

same_key-new_row :
    (hash : String) (i : EnqueueInput) (now : ℕ) (request_id : String)
    → same_key i (new_row hash i now request_id) ≡ true
same_key-new_row hash i now request_id =
    let lane = (int_eq_iff i.owner.chat_id i.owner.chat_id).1 refl in
    let key = str_eq_refl i.idempotency_key in
    let user = (==_iff i.owner.user_id i.owner.user_id).1 refl in rw (user, lane, key) refl

module _ (hash_message : String → String → String) (c : Config) (i : EnqueueInput) (s : Coordinator)
    (now : ℕ) (request_id : String) where
  closed_refuses :
      (d : Option RequestDto) (existing : Bool)
      → (enqueue hash_message c s i now request_id).0 ≡ accepted d existing
      → s.closed ≡ false
  unfolding enqueue
  closed_refuses d existing h = ground arith

  enqueue-new :
      s.closed ≡ false
      → find_where (same_key i) s.requests ≡ none
      → enqueue hash_message c s i now request_id
        ≡ queue_request c s i (new_row (hash_message i.thread_id i.message) i now request_id)
  unfolding enqueue
  enqueue-new o e = ground arith

  enqueue-known :
      (x : RequestRow)
      → s.closed ≡ false
      → find_where (same_key i) s.requests ≡ some x
      → enqueue hash_message c s i now request_id
        ≡ (repeat_request (hash_message i.thread_id i.message) i x, s)
  unfolding enqueue
  enqueue-known x o e = ground arith

  -- The row that an accepted call leaves under its key.
  accepted-known :
      (d : Option RequestDto) (existing : Bool)
      → (enqueue hash_message c s i now request_id).0 ≡ accepted d existing
      → (x : RequestRow) × (find_where
            (same_key i)
            (enqueue hash_message c s i now request_id).1.requests
          ≡ some x)
        × IsAnswer (hash_message i.thread_id i.message) i x
        × ((enqueue hash_message c s i now request_id).1.closed ≡ false)
  accepted-known d existing h =
      let open_ = closed_refuses d existing h in
      let hash = hash_message i.thread_id i.message in
      let row = new_row hash i now request_id in
      elim (Option-cases (find_where (same_key i) s.requests)) [
        | inl e ↦
            let (closed, requests) =
              queue_request-accepted c s i row d existing (rw (enqueue-new open_ e) at h) in
            rw (enqueue-new open_ e) (
              row,
              rw requests (
                  find_where-append_none i s.requests row e
                    (same_key-new_row hash i now request_id)),
              (str_eq_refl i.thread_id, str_eq_refl hash),
              rw closed open_,
            )
        | inr (x, e) ↦ rw (enqueue-known x open_ e) (
          x,
          e,
          repeat_request-accepted hash i x d existing (rw (enqueue-known x open_ e) at h),
          open_,
        )
      ]

-- A caller that repeats an accepted call gets the request that stands under its key, marked as
-- existing, whatever the time and the fresh id of the repeated call; and nothing changes, so the
-- request runs and is charged once.
pub enqueue_again :
    (hash_message : String → String → String) (c : Config) (i : EnqueueInput) (s : Coordinator)
    (now later : ℕ) (request_id other_id : String) (d : Option RequestDto) (existing : Bool)
    → (enqueue hash_message c s i now request_id).0 ≡ accepted d existing
    → (x : RequestRow) × (find_where
          (same_key i)
          (enqueue hash_message c s i now request_id).1.requests
        ≡ some x)
      × (enqueue hash_message c (enqueue hash_message c s i now request_id).1 i later other_id
          ≡ (accepted (some (to_dto x)) true, (enqueue hash_message c s i now request_id).1))
enqueue_again hash_message c i s now later request_id other_id d existing h =
    let (x, found, answers, open_) =
      accepted-known hash_message c i s now request_id d existing h in
    (
      x,
      found,
      rw
          (
            enqueue-known hash_message c i (enqueue hash_message c s i now request_id).1 later
                other_id x open_ found,
            answers.0,
            answers.1,
          )
          refl,
    )
