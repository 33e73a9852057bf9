-- ===== src/Auth/Requests/Pending.antt =====
-- What a token finds of a request that was created.
use eveai.Base.{
  ℕ, ◌+◌, ◌<◌, ◌≡◌, refl, String, str_eq, str_eq_refl, Bool, true, false, Option, none, some, List,
  [], ◌∷◌, ◌++◌, arith, Bool-cases, inl, inr, exists_where, find_where, delete_where,
}
use eveai.Auth.Requests.{
  protect, AuthRequestType, eve_sso, tg_handoff, StoredRequest, AuthRequestRow,
  CreateAuthRequestOptions, Json, same_type, request_expired, clean_expired_auth_requests,
  is_replaced, new_request, create_auth_request_token, is_found, find_pending_auth_request,
  parse_requested_scopes,
}

module _ {A : Type 0} where
  exists_where-delete_where :
      (p q : A → Bool) (rows : List A)
      → exists_where p rows ≡ false
      → exists_where p (delete_where q rows) ≡ false
  unfolding exists_where delete_where
  exists_where-delete_where p q [] h = refl
  exists_where-delete_where p q (r ∷ rows) h = ground (arith, exists_where-delete_where p q rows)

  find_where-snoc :
      (p : A → Bool) (rows : List A) (r : A)
      → find_where p rows ≡ none
      → p r ≡ true
      → find_where p (rows ++ r ∷ []) ≡ some r
  unfolding find_where
  find_where-snoc p [] r h k = rw k refl
  find_where-snoc p (q ∷ rows) r h k = elim (Bool-cases (p q)) [
    | inl e ↦ absurd (let x = rw e at h in cc)
    | inr e ↦ rw e (find_where-snoc p rows r (rw e at h) k)
  ]

  delete_where-snoc :
      (q : A → Bool) (rows : List A) (r : A)
      → q r ≡ false
      → delete_where q (rows ++ r ∷ []) ≡ delete_where q rows ++ r ∷ []
  unfolding delete_where
  delete_where-snoc q [] r h = rw h refl
  delete_where-snoc q (x ∷ rows) r h = ground (arith, delete_where-snoc q rows r)

  find_where-narrow :
      (p q : A → Bool) (rows : List A)
      → ((a : A) → q a ≡ false → p a ≡ false)
      → exists_where q rows ≡ false
      → find_where p rows ≡ none
  unfolding find_where exists_where
  find_where-narrow p q [] f h = refl
  find_where-narrow p q (a ∷ rows) f h =
      let misses = f a (ground arith) in rw misses (find_where-narrow p q rows f (ground arith))

same_type_refl : (type : AuthRequestType) → same_type type type ≡ true
same_type_refl eve_sso = refl
same_type_refl tg_handoff = refl

module _ (digest : String → String → String) (stringify : List String → String)
    (parse : String → Option Json) (type : AuthRequestType) (user_id : ℕ)
    (options : CreateAuthRequestOptions) (token : String) (now : ℕ) where
  abbrev pub request : StoredRequest
  request = new_request digest stringify parse type user_id options token now

  abbrev has_state : StoredRequest → Bool
  has_state r = str_eq r.state (protect digest stringify parse type token)

  abbrev others : List StoredRequest → List StoredRequest
  unfolding clean_expired_auth_requests
  others rows =
      delete_where (is_replaced digest stringify parse type user_id options.chat_id)
        (clean_expired_auth_requests now rows)

  others_new :
      (rows : List StoredRequest)
      → exists_where has_state rows ≡ false
      → exists_where has_state (others rows) ≡ false
  unfolding others clean_expired_auth_requests
  others_new rows h =
      exists_where-delete_where has_state
        (is_replaced digest stringify parse type user_id options.chat_id) _
        (exists_where-delete_where has_state (request_expired now) rows h)

  create_auth_request_token_new :
      (rows : List StoredRequest)
      → exists_where has_state rows ≡ false
      → create_auth_request_token digest stringify parse type user_id options token now rows
        ≡ (some token, others rows ++ request ∷ [])
  unfolding create_auth_request_token others
  create_auth_request_token_new rows h = rw (others_new rows h) refl

  -- What a caller then reads: no scopes and no consent yet.
  abbrev pub fresh_row : AuthRequestRow
  fresh_row = record {
    user_id = user_id;
    chat_id = options.chat_id;
    type = type;
    redirect_url = options.redirect_url;
    requested_scopes = none;
    consent_version = none;
    consent_language = none;
    consented_at = none;
  }

  -- With a token whose protected value is new, the request is stored under that value, and found
  -- by its token until it expires.
  pub find_pending_auth_request-create_auth_request_token :
      (rows : List StoredRequest) (later : ℕ)
      → exists_where has_state rows ≡ false
      → later < now + options.ttl_seconds
      → ((create_auth_request_token digest stringify parse type user_id options token now rows).0
          ≡ some token)
        × ((find_pending_auth_request digest stringify parse type token later
              (create_auth_request_token digest stringify parse type user_id options token now
                rows).1).0
            ≡ some fresh_row)
  unfolding find_pending_auth_request clean_expired_auth_requests parse_requested_scopes
  find_pending_auth_request-create_auth_request_token rows later h before =
      let kept = delete_where (request_expired later) (others rows) in
      let p =
        is_found digest stringify parse type token later
          (protect digest stringify parse type token) in
      let own = str_eq_refl (protect digest stringify parse type token) in
      let same = same_type_refl type in
      let misses =
        find_where-narrow p has_state kept (λ r e. ground arith)
          (exists_where-delete_where has_state (request_expired later) _ (others_new rows h)) in
      let stays : request_expired later request ≡ false = ground arith in
      let hits : p request ≡ true = rw (same, own) (ground arith) in
      rw (create_auth_request_token_new rows h) (
        refl,
        rw
            (
              delete_where-snoc (request_expired later) (others rows) request stays,
              find_where-snoc p kept request misses hits,
            )
            refl,
      )
