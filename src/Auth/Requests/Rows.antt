-- ===== src/Auth/Requests/Rows.antt =====
-- What each statement on auth_requests does to all rows.
use eveai.Base.{
  arith, ℕ, ◌≡◌, refl, String, Bool, true, false, Option, none, List, [], ◌∷◌, All, All-append,
  Bool-cases, inl, inr, str_eq, count_where, exists_where, find_where, delete_where, update_where,
}
use eveai.Auth.Requests.{
  protect, AuthRequestType, StoredRequest, CreateAuthRequestOptions, Consent, Json, request_expired,
  clean_expired_auth_requests, is_replaced, new_request, create_auth_request_token, can_consent,
  consented, is_of_token, used, TokenCall, creates, finds, uses, consents, cleans, apply_calls,
}

module _ {A : Type 0} where
  module _ (Q : A → Type 0) where
    pub All-delete_where : (p : A → Bool) (rows : List A) → All Q rows → All Q (delete_where p rows)
    unfolding delete_where
    All-delete_where p [] h = tt
    All-delete_where p (r ∷ rows) h = elim (Bool-cases (p r)) [
      | inl e ↦ rw e (All-delete_where p rows h.1)
      | inr e ↦ rw e (h.0, All-delete_where p rows h.1)
    ]

    pub All-update_where :
        (p : A → Bool) (f : A → A) (rows : List A)
        → ((r : A) → Q r → Q (f r))
        → All Q rows
        → All Q (update_where p f rows)
    unfolding update_where
    All-update_where p f [] k h = tt
    All-update_where p f (r ∷ rows) k h = elim (Bool-cases (p r)) [
      | inl e ↦ rw e (k r h.0, All-update_where p f rows k h.1)
      | inr e ↦ rw e (h.0, All-update_where p f rows k h.1)
    ]

    -- The rows that are changed have the property, and so have the others.
    pub All-updated :
        (p : A → Bool) (f : A → A) (rows : List A)
        → ((r : A) → p r ≡ true → Q (f r))
        → ((r : A) → p r ≡ false → Q r)
        → All Q (update_where p f rows)
    unfolding update_where
    All-updated p f [] k h = tt
    All-updated p f (r ∷ rows) k h = elim (Bool-cases (p r)) [
      | inl e ↦ rw e (k r e, All-updated p f rows k h)
      | inr e ↦ rw e (h r e, All-updated p f rows k h)
    ]

    module _ (p : A → Bool) (none_fits : (r : A) → Q r → p r ≡ false) where
      pub find_where-All : (rows : List A) → All Q rows → find_where p rows ≡ none
      unfolding find_where
      find_where-All [] h = refl
      find_where-All (r ∷ rows) h = rw (none_fits r h.0) (find_where-All rows h.1)

      pub count_where-All : (rows : List A) → All Q rows → count_where p rows ≡ 0
      unfolding count_where
      count_where-All [] h = refl
      count_where-All (r ∷ rows) h = rw (none_fits r h.0, count_where-All rows h.1) (omega arith)

module _ (digest : String → String → String) (stringify : List String → String)
    (parse : String → Option Json) where
  -- What the calls create has the property.
  abbrev pub CreatesOnly :
      (StoredRequest → Type 0) → List (TokenCall digest stringify parse) → Type 0
  CreatesOnly P [] = Unit
  CreatesOnly P (creates type user_id options token now ∷ cs) =
      P (new_request digest stringify parse type user_id options token now) × CreatesOnly P cs
  CreatesOnly P (c ∷ cs) = CreatesOnly P cs

  pub CreatesOnly-mono :
      (P Q : StoredRequest → Type 0)
      → ((r : StoredRequest) → P r → Q r)
      → (cs : List (TokenCall digest stringify parse)) → CreatesOnly P cs
      → CreatesOnly Q cs
  CreatesOnly-mono P Q f [] h = tt
  CreatesOnly-mono P Q f (creates type user_id options token now ∷ cs) h =
      (f _ h.0, CreatesOnly-mono P Q f cs h.1)
  CreatesOnly-mono P Q f (finds type token now ∷ cs) h = CreatesOnly-mono P Q f cs h
  CreatesOnly-mono P Q f (uses type token now ∷ cs) h = CreatesOnly-mono P Q f cs h
  CreatesOnly-mono P Q f (consents type token c now ∷ cs) h = CreatesOnly-mono P Q f cs h
  CreatesOnly-mono P Q f (cleans now ∷ cs) h = CreatesOnly-mono P Q f cs h

module _ (digest : String → String → String) (stringify : List String → String)
    (parse : String → Option Json) (Q : StoredRequest → Type 0)
    (consented_keeps : (c : Consent) (now : ℕ) (r : StoredRequest)
      → Q r
      → Q (consented digest stringify parse c now r))
    (used_keeps : (now : ℕ) (r : StoredRequest) → Q r → Q (used digest stringify parse now r)) where
  cleaned :
      (now : ℕ) (rows : List StoredRequest)
      → All Q rows
      → All Q (clean_expired_auth_requests now rows)
  unfolding clean_expired_auth_requests
  cleaned now rows h = All-delete_where Q (request_expired now) rows h

  created :
      (type : AuthRequestType) (user_id : ℕ) (options : CreateAuthRequestOptions) (token : String)
      (now : ℕ) (rows : List StoredRequest)
      → Q (new_request digest stringify parse type user_id options token now)
      → All Q rows
      → All Q
          (create_auth_request_token digest stringify parse type user_id options token now rows).1
  unfolding create_auth_request_token
  created type user_id options token now rows q h =
      let kept =
        delete_where (is_replaced digest stringify parse type user_id options.chat_id)
          (clean_expired_auth_requests now rows) in
      let all =
        All-delete_where Q (is_replaced digest stringify parse type user_id options.chat_id) _
          (cleaned now rows h) in
      elim (Bool-cases
        (exists_where (λ r. str_eq r.state (protect digest stringify parse type token)) kept)) [
          | inl e ↦ rw e all
          | inr e ↦ rw e (
              All-append Q kept
                (new_request digest stringify parse type user_id options token now ∷ []) all
                (q, tt))
        ]

  pub apply_calls-All :
      (cs : List (TokenCall digest stringify parse)) (rows : List StoredRequest)
      → CreatesOnly digest stringify parse Q cs
      → All Q rows
      → All Q (apply_calls digest stringify parse rows cs)
  unfolding apply_calls
  apply_calls-All [] rows only h = h
  apply_calls-All (creates type user_id options token now ∷ cs) rows only h =
      apply_calls-All cs _ only.1 (created type user_id options token now rows only.0 h)
  apply_calls-All (finds type token now ∷ cs) rows only h =
      apply_calls-All cs _ only (cleaned now rows h)
  apply_calls-All (uses type token now ∷ cs) rows only h = apply_calls-All cs _ only (
      All-update_where Q (is_of_token digest stringify parse type token)
        (used digest stringify parse now) _ (used_keeps now) (cleaned now rows h))
  apply_calls-All (consents type token c now ∷ cs) rows only h = apply_calls-All cs _ only (
      All-update_where Q (can_consent digest stringify parse type token now)
        (consented digest stringify parse c now) _ (consented_keeps c now) (cleaned now rows h))
  apply_calls-All (cleans now ∷ cs) rows only h = apply_calls-All cs _ only (cleaned now rows h)
