-- ===== src/EveKill/Watch/Limits.antt =====
-- The number of watches of a chat, and of a topic in it, over any calls.
use eveai.Base.{
  ℕ, ◌≤◌, ◌<◌, ◌≡◌, subst, String, str_eq_iff, Bool, false, List, [], ◌∷◌, ◌++◌, leb, arith,
  Bool-cases, inl, inr, ℤ, int_eq, int_eq_iff, count_where, count_where-append,
  count_where-delete_where, count_where-exists_where, exists_where, delete_where,
}
use eveai.EveKill.Watch.{
  WatchRow, of_chat, is_watch, max_watches, add_watch, WatchCall, adds, removes, removes_all,
  run_calls,
}

-- At most 20 watches of a chat, and each topic once.
pub record IsCapped (rows : List WatchRow) : Type 0 where
  pub bounded : (chat_id : ℤ) → count_where (of_chat chat_id) rows ≤ max_watches
  pub once : (chat_id : ℤ) (topic : String) → count_where (is_watch chat_id topic) rows ≤ 1

module _ (rows : List WatchRow) (capped : IsCapped rows) where
  deleted-IsCapped : (q : WatchRow → Bool) → IsCapped (delete_where q rows)
  deleted-IsCapped q = record {
    bounded = λ c. omega (arith, count_where-delete_where (of_chat c) q rows, capped.bounded c);
    once = λ c t. omega (arith, count_where-delete_where (is_watch c t) q rows, capped.once c t);
  }

  module _ (r : WatchRow) where
    room :
        leb max_watches (count_where (of_chat r.chat_id) rows) ≡ false
        → (c : ℤ) → count_where (of_chat c) (rows ++ r ∷ []) ≤ max_watches
    unfolding count_where
    room h c =
        let old = capped.bounded c in
        let fits : count_where (of_chat r.chat_id) rows < max_watches = ground arith in
        let added = count_where-append (of_chat c) rows (r ∷ []) in
        elim (Bool-cases (int_eq r.chat_id c)) [
          | inl same ↦
              let below =
                subst (λ x. count_where (of_chat x) rows < max_watches)
                  ((int_eq_iff r.chat_id c).0 same) fits in
              ground arith
          | inr apart ↦ ground arith
        ]

    fresh :
        exists_where (is_watch r.chat_id r.topic) rows ≡ false
        → (c : ℤ) (t : String) → count_where (is_watch c t) (rows ++ r ∷ []) ≤ 1
    unfolding count_where
    fresh h c t =
        let old = capped.once c t in
        let added = count_where-append (is_watch c t) rows (r ∷ []) in
        elim (Bool-cases (is_watch c t r)) [
          | inl same ↦
              let empty = count_where-exists_where (is_watch r.chat_id r.topic) rows h in
              let at_c : r.chat_id ≡ c = (int_eq_iff r.chat_id c).0 (ground arith) in
              let at_t : r.topic ≡ t = (str_eq_iff r.topic t).0 (ground arith) in
              let empty_here =
                subst (λ y. count_where (is_watch c y) rows ≡ 0) at_t
                  (subst (λ x. count_where (is_watch x r.topic) rows ≡ 0) at_c empty) in
              ground arith
          | inr apart ↦ ground arith
        ]

  add_watch-IsCapped :
      (id now : ℕ) (c : ℤ) (topic label : String) → IsCapped (add_watch id now c topic label rows).1
  unfolding add_watch
  add_watch-IsCapped id now c topic label =
      elim (Bool-cases (exists_where (is_watch c topic) rows)) [
        | inl e ↦ rw e capped
        | inr e ↦ elim (Bool-cases (leb max_watches (count_where (of_chat c) rows))) [
          | inl f ↦ rw (e, f) capped
          | inr f ↦
              let r : WatchRow = record {
                id = id;
                chat_id = c;
                topic = topic;
                label = label;
                created_at = now;
              } in
              rw (e, f) (record { bounded = room r f; once = fresh r e })
        ]
      ]

-- Any calls keep the limit of 20 watches for each chat, and that a chat watches a topic once.
pub run_calls-IsCapped :
    (calls : List WatchCall) (rows : List WatchRow)
    → IsCapped rows
    → IsCapped (run_calls rows calls)
unfolding run_calls
run_calls-IsCapped [] rows h = h
run_calls-IsCapped (adds id now c topic label ∷ calls) rows h =
    run_calls-IsCapped calls _ (add_watch-IsCapped rows h id now c topic label)
run_calls-IsCapped (removes c topic ∷ calls) rows h =
    run_calls-IsCapped calls _ (deleted-IsCapped rows h (is_watch c topic))
run_calls-IsCapped (removes_all c ∷ calls) rows h =
    run_calls-IsCapped calls _ (deleted-IsCapped rows h (of_chat c))
