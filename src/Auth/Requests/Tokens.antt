-- ===== src/Auth/Requests/Tokens.antt =====
-- What later calls find of a token that was used or consented to.
use eveai.Base.{
  ℕ, ◌≤◌, ◌≡◌, refl, sym, ◌∙◌, String, Bool, true, false, Option, none, List, arith, Bool-cases,
  ◌⊎◌, inl, inr,
}
use eveai.Auth.Requests.{
  protect, AuthRequestType, StoredRequest, Consent, Json, is_null, request_expired,
  clean_expired_auth_requests, is_of_token, is_found, find_pending_auth_request, can_consent,
  consented, record_auth_request_consent, used, mark_auth_request_used, TokenCall, apply_calls,
}
use eveai.Auth.Requests.Rows.{
  All-delete_where, All-updated, find_where-All, count_where-All, CreatesOnly, CreatesOnly-mono,
  apply_calls-All,
}

module _ (digest : String → String → String) (stringify : List String → String)
    (parse : String → Option Json) (type : AuthRequestType) (token : String) where
  abbrev pub is_own : StoredRequest → Bool
  is_own r = is_of_token digest stringify parse type token r

  -- A row of the token is used.
  abbrev pub IsSpent : StoredRequest → Type 0
  IsSpent r = is_own r ≡ true → is_null r.used_at ≡ false

  -- A row of the token cannot be consented to any more.
  abbrev pub IsSettled : ℕ → StoredRequest → Type 0
  IsSettled now r =
      is_own r ≡ true
      → ((is_null r.used_at ≡ false) ⊎ (is_null r.consented_at ≡ false)) ⊎ (r.expires_at ≤ now)

  -- A row of other tokens.
  abbrev pub IsOther : StoredRequest → Type 0
  IsOther r = is_own r ≡ false

  spent_none :
      (later : ℕ) (state : String) (r : StoredRequest)
      → IsSpent r
      → is_found digest stringify parse type token later state r ≡ false
  spent_none later state r h = elim (Bool-cases (is_own r)) [
    | inl e ↦ let spent = h e in ground arith
    | inr e ↦ ground arith
  ]

  settled_none :
      (now later : ℕ) (r : StoredRequest)
      → now ≤ later
      → IsSettled now r
      → can_consent digest stringify parse type token later r ≡ false
  settled_none now later r after h = elim (Bool-cases (is_own r)) [
    | inl e ↦ let settled = h e in ground arith
    | inr e ↦ ground arith
  ]

  -- Behind `markAuthRequestUsed` the token finds no request any more, at any time, whatever is
  -- called, as long as no request is created under the token's stored values.
  pub find_pending_auth_request-mark_auth_request_used :
      (rows : List StoredRequest) (now later : ℕ) (calls : List (TokenCall digest stringify parse))
      → CreatesOnly digest stringify parse IsOther calls
      → (find_pending_auth_request digest stringify parse type token later (
          apply_calls digest stringify parse
            (mark_auth_request_used digest stringify parse type token now rows)
            calls)).0
        ≡ none
  unfolding find_pending_auth_request mark_auth_request_used clean_expired_auth_requests
  find_pending_auth_request-mark_auth_request_used rows now later calls only =
      let marked =
        All-updated IsSpent is_own (used digest stringify parse now)
          (clean_expired_auth_requests now rows) (λ r h k. refl)
          (λ r h k. absurd (let x : true ≡ false = sym k ∙ h in cc)) in
      let all =
        apply_calls-All digest stringify parse IsSpent (λ c n r h. h) (λ n r h k. refl) calls _
          (CreatesOnly-mono digest stringify parse IsOther IsSpent
            (λ r h k. absurd (let x : true ≡ false = sym k ∙ h in cc)) calls only)
          marked in
      let kept = All-delete_where IsSpent (request_expired later) _ all in
      rw
        (
          find_where-All IsSpent
              (is_found digest stringify parse type token later
                (protect digest stringify parse type token))
              (spent_none later (protect digest stringify parse type token)) _ kept,
          find_where-All IsSpent (is_found digest stringify parse type token later token)
              (spent_none later token) _ kept,
        )
        refl

  refused :
      (now : ℕ) (r : StoredRequest)
      → can_consent digest stringify parse type token now r ≡ false
      → IsSettled now r
  refused now r h k = ground arith

  -- Behind a call of `recordAuthRequestConsent` no later call for the token records a consent,
  -- whatever is called between, as long as no request is created under the token's stored values.
  pub record_auth_request_consent_again :
      (rows : List StoredRequest) (c c' : Consent) (now later : ℕ)
      (calls : List (TokenCall digest stringify parse))
      → now ≤ later
      → CreatesOnly digest stringify parse IsOther calls
      → (record_auth_request_consent digest stringify parse type token c' later (
          apply_calls digest stringify parse
            (record_auth_request_consent digest stringify parse type token c now rows).1
            calls)).0
        ≡ false
  unfolding record_auth_request_consent clean_expired_auth_requests
  record_auth_request_consent_again rows c c' now later calls after only =
      let Q = IsSettled now in
      let told =
        All-updated Q (can_consent digest stringify parse type token now)
          (consented digest stringify parse c now) (clean_expired_auth_requests now rows)
          (λ r h k. inl (inr refl)) (refused now) in
      let all =
        apply_calls-All digest stringify parse Q (λ c n r h k. inl (inr refl))
          (λ n r h k. inl (inl refl)) calls _
          (CreatesOnly-mono digest stringify parse IsOther Q
            (λ r h k. absurd (let x : true ≡ false = sym k ∙ h in cc)) calls only)
          told in
      rw
        (count_where-All Q (can_consent digest stringify parse type token later)
          (λ r. settled_none now later r after) _
          (All-delete_where Q (request_expired later) _ all))
        refl
