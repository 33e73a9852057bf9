-- ===== src/Auth/Requests.antt =====
-- src/auth/auth-request.ts: one-time requests of a login, the table auth_requests.
-- `digest` is the keyed hash of node:crypto for a purpose and a token, in base64,
-- `stringify` is JSON.stringify of the scopes, and `parse` is JSON.parse of them. Times are seconds;
-- the texts of datetime('now') compare as they do. The token of a call is an argument. The column
-- created_at, which no call reads, is left out.
pub mod Rows
pub mod Tokens
pub mod Pending
mod Examples
use Prim.Native.String.{◌++◌ as concat}
use eveai.Base.{
  ℕ, ◌+◌, ◌*◌, String, str_eq, Bool, true, false, not, ◌&&◌, ◌||◌, Option, none, some, List, [],
  ◌∷◌, ◌++◌, map, ltb, leb, ◌==◌, if◌then◌else◌, ℤ, pos, int_eq, count_where, exists_where,
  find_where, delete_where, update_where,
}

pub data AuthRequestType : Type 0 where
  eve_sso tg_handoff : AuthRequestType

pub data Language : Type 0 where
  ru en : Language

-- A row of auth_requests.
pub record StoredRequest : Type 0 where
  pub state : String
  pub type : AuthRequestType
  pub user_id : ℕ
  pub chat_id : Option ℤ
  pub redirect_url : Option String
  pub requested_scopes_json : Option String
  pub consent_version : Option String
  pub consent_language : Option Language
  pub consented_at : Option ℕ
  pub expires_at : ℕ
  pub used_at : Option ℕ

-- What the caller reads.
pub record AuthRequestRow : Type 0 where
  pub user_id : ℕ
  pub chat_id : Option ℤ
  pub type : AuthRequestType
  pub redirect_url : Option String
  pub requested_scopes : Option (List String)
  pub consent_version : Option String
  pub consent_language : Option Language
  pub consented_at : Option ℕ

pub record CreateAuthRequestOptions : Type 0 where
  pub chat_id : Option ℤ
  pub redirect_url : Option String
  pub ttl_seconds : ℕ

pub record Consent : Type 0 where
  pub version : String
  pub language : Language
  pub scopes : List String

-- What JSON.parse returns, as far as it is looked at.
pub data JsonItem : Type 0 where
  text : String → JsonItem
  not_text : JsonItem

pub data Json : Type 0 where
  array : List JsonItem → Json
  not_array : Json

abbrev pub same_type : AuthRequestType → AuthRequestType → Bool
same_type eve_sso eve_sso = true
same_type tg_handoff tg_handoff = true
same_type _ _ = false

-- USED_AUTH_REQUEST_RETENTION_HOURS
abbrev pub used_retention_s : ℕ
used_retention_s = 24 * 3600

abbrev pub coalesce_chat : Option ℤ → ℤ
coalesce_chat none = pos 0
coalesce_chat (some chat_id) = chat_id

abbrev pub is_null {ℓ} : {A : Type ℓ} → Option A → Bool
is_null none = true
is_null (some x) = false

abbrev pub long_used : ℕ → Option ℕ → Bool
long_used now none = false
long_used now (some used_at) = leb (used_at + used_retention_s) now

abbrev pub request_expired : ℕ → StoredRequest → Bool
request_expired now r = leb r.expires_at now || long_used now r.used_at

unfoldable pub clean_expired_auth_requests : ℕ → List StoredRequest → List StoredRequest
clean_expired_auth_requests now rows = delete_where (request_expired now) rows

-- The scopes of a JSON array of texts.
unfoldable pub texts_of : List JsonItem → Option (List String)
texts_of [] = some []
texts_of (not_text ∷ items) = none
texts_of (text s ∷ items) = elim (texts_of items) [ none ↦ none | some rest ↦ some (s ∷ rest) ]

abbrev pub auth_request_purpose : AuthRequestType → String
auth_request_purpose eve_sso = "auth_request:eve_sso"
auth_request_purpose tg_handoff = "auth_request:tg_handoff"

abbrev pub protect_opaque_token : (String → String → String) → (token purpose : String) → String
protect_opaque_token digest token purpose = concat "h1:" (digest purpose token)

module _ (digest : String → String → String) (stringify : List String → String)
    (parse : String → Option Json) where
  abbrev pub protect : AuthRequestType → String → String
  protect type token = protect_opaque_token digest token (auth_request_purpose type)

  unfoldable pub parse_requested_scopes : Option String → Option (List String)
  unfolding texts_of
  parse_requested_scopes none = none
  parse_requested_scopes (some value) = elim (parse value) [
    | none ↦ none
    | some not_array ↦ none
    | some (array items) ↦ texts_of items
  ]

  -- The rows that a new request replaces.
  abbrev pub is_replaced : AuthRequestType → ℕ → Option ℤ → StoredRequest → Bool
  is_replaced type user_id chat_id r =
      (same_type r.type type && r.user_id == user_id)
      && (int_eq (coalesce_chat r.chat_id) (coalesce_chat chat_id) && is_null r.used_at)

  abbrev pub new_request :
      AuthRequestType → ℕ → CreateAuthRequestOptions → String → ℕ → StoredRequest
  new_request type user_id options token now = record {
    state = protect type token;
    type = type;
    user_id = user_id;
    chat_id = options.chat_id;
    redirect_url = options.redirect_url;
    requested_scopes_json = none;
    consent_version = none;
    consent_language = none;
    consented_at = none;
    expires_at = now + options.ttl_seconds;
    used_at = none;
  }

  -- The INSERT throws on a state that is there.
  abbrev insert_token_row :
      String → StoredRequest → List StoredRequest → Option String × List StoredRequest
  insert_token_row token r rows =
      if exists_where (λ q. str_eq q.state r.state) rows
      then (none, rows)
      else (some token, rows ++ r ∷ [])

  unfoldable pub create_auth_request_token :
      AuthRequestType
      → ℕ
      → CreateAuthRequestOptions
      → String
      → ℕ
      → List StoredRequest
      → Option String × List StoredRequest
  unfolding clean_expired_auth_requests
  create_auth_request_token type user_id options token now rows =
      insert_token_row token (new_request type user_id options token now) (
        delete_where (is_replaced type user_id options.chat_id)
          (clean_expired_auth_requests now rows))

  -- `type = ? AND state IN (?, ?)`
  abbrev pub is_of_token : AuthRequestType → String → StoredRequest → Bool
  is_of_token type token r =
      same_type r.type type && (str_eq r.state (protect type token) || str_eq r.state token)

  abbrev pub is_open : ℕ → StoredRequest → Bool
  is_open now r = is_null r.used_at && ltb now r.expires_at

  abbrev pub to_row : StoredRequest → AuthRequestRow
  unfolding parse_requested_scopes
  to_row r = record {
    user_id = r.user_id;
    chat_id = r.chat_id;
    type = r.type;
    redirect_url = r.redirect_url;
    requested_scopes = parse_requested_scopes r.requested_scopes_json;
    consent_version = r.consent_version;
    consent_language = r.consent_language;
    consented_at = r.consented_at;
  }

  abbrev pub read_row : Option StoredRequest → Option AuthRequestRow
  unfolding parse_requested_scopes
  read_row none = none
  read_row (some r) = some (to_row r)

  -- The first row, one of the protected token before one of the plain token.
  abbrev pub first_of {ℓ} : {A : Type ℓ} → Option A → Option A → Option A
  first_of (some r) other = some r
  first_of none other = other

  abbrev pub is_found : AuthRequestType → String → ℕ → String → StoredRequest → Bool
  is_found type token now state r =
      (is_of_token type token r && is_open now r) && str_eq r.state state

  unfoldable pub find_pending_auth_request :
      AuthRequestType → String → ℕ → List StoredRequest → Option AuthRequestRow × List StoredRequest
  unfolding clean_expired_auth_requests parse_requested_scopes
  find_pending_auth_request type token now rows =
      let kept = clean_expired_auth_requests now rows in
      (
        read_row (
            first_of (find_where (is_found type token now (protect type token)) kept)
              (find_where (is_found type token now token) kept)),
        kept,
      )

  abbrev pub can_consent : AuthRequestType → String → ℕ → StoredRequest → Bool
  can_consent type token now r =
      (is_of_token type token r && is_null r.used_at)
      && (is_null r.consented_at && ltb now r.expires_at)

  abbrev pub consented : Consent → ℕ → StoredRequest → StoredRequest
  consented c now r = record r {
    requested_scopes_json = some (stringify c.scopes);
    consent_version = some c.version;
    consent_language = some c.language;
    consented_at = some now;
  }

  unfoldable pub record_auth_request_consent :
      AuthRequestType → String → Consent → ℕ → List StoredRequest → Bool × List StoredRequest
  unfolding clean_expired_auth_requests
  record_auth_request_consent type token c now rows =
      let kept = clean_expired_auth_requests now rows in
      (
        count_where (can_consent type token now) kept == 1,
        update_where (can_consent type token now) (consented c now) kept,
      )

  abbrev pub used : ℕ → StoredRequest → StoredRequest
  used now r = record r { used_at = some now }

  unfoldable pub mark_auth_request_used :
      AuthRequestType → String → ℕ → List StoredRequest → List StoredRequest
  unfolding clean_expired_auth_requests
  mark_auth_request_used type token now rows =
      update_where (is_of_token type token) (used now) (clean_expired_auth_requests now rows)

  -- The calls on the table.
  pub data TokenCall : Type 0 where
    creates :
        (type : AuthRequestType) (user_id : ℕ) (options : CreateAuthRequestOptions) (token : String)
        (now : ℕ)
        → TokenCall
    finds uses : (type : AuthRequestType) (token : String) (now : ℕ) → TokenCall
    consents : (type : AuthRequestType) (token : String) (c : Consent) (now : ℕ) → TokenCall
    cleans : (now : ℕ) → TokenCall

  unfoldable pub apply_call : List StoredRequest → TokenCall → List StoredRequest
  unfolding create_auth_request_token find_pending_auth_request mark_auth_request_used
      record_auth_request_consent
  apply_call rows (creates type user_id options token now) =
      (create_auth_request_token type user_id options token now rows).1
  apply_call rows (finds type token now) = (find_pending_auth_request type token now rows).1
  apply_call rows (uses type token now) = mark_auth_request_used type token now rows
  apply_call rows (consents type token c now) =
      (record_auth_request_consent type token c now rows).1
  apply_call rows (cleans now) = clean_expired_auth_requests now rows

  unfoldable pub apply_calls : List StoredRequest → List TokenCall → List StoredRequest
  unfolding apply_call
  apply_calls rows [] = rows
  apply_calls rows (c ∷ cs) = apply_calls (apply_call rows c) cs
