-- ===== src/Auth/Requests/Examples.antt =====
-- A login request at concrete values, and instances of the theorems.
use eveai.Base.{
  ◌≡◌, refl, String, true, false, Option, none, some, List, [], ◌∷◌, pos, arith, count_where,
  delete_where, exists_where,
}
use Prim.Native.String.{◌++◌ as concat}
use eveai.Auth.Requests.{
  eve_sso, StoredRequest, CreateAuthRequestOptions, Consent, en, Json, array, TokenCall, creates,
  finds, create_auth_request_token, find_pending_auth_request, record_auth_request_consent,
  mark_auth_request_used, apply_calls, new_request,
}
use eveai.Auth.Requests.Tokens.{
  find_pending_auth_request-mark_auth_request_used, record_auth_request_consent_again,
}
use eveai.Auth.Requests.Pending.{fresh_row, find_pending_auth_request-create_auth_request_token}

abbrev digest : String → String → String
digest purpose token = concat purpose token

abbrev stringify : List String → String
stringify scopes = "[]"

abbrev parse : String → Option Json
parse value = some (array [])

abbrev options : CreateAuthRequestOptions
options = record { chat_id = some (pos 3); redirect_url = none; ttl_seconds = 600 }

abbrev stored : List StoredRequest
stored = new_request digest stringify parse eve_sso 5 options "a" 100 ∷ []

abbrev agreed : Consent
agreed = record { version = "2"; language = en; scopes = [] }

abbrev afterwards : List (TokenCall digest stringify parse)
afterwards = creates eve_sso 6 options "b" 120 ∷ finds eve_sso "b" 130 ∷ []

find_pending_auth_request-create_auth_request_token_example :
    ((create_auth_request_token digest stringify parse eve_sso 6 options "b" 120 stored).0
      ≡ some "b")
    × ((find_pending_auth_request digest stringify parse eve_sso "b" 700
          (create_auth_request_token digest stringify parse eve_sso 6 options "b" 120 stored).1).0
        ≡ some (fresh_row digest stringify parse eve_sso 6 options "b" 120))
unfolding exists_where
find_pending_auth_request-create_auth_request_token_example =
    find_pending_auth_request-create_auth_request_token digest stringify parse eve_sso 6 options "b"
      120 stored 700 refl (omega arith)

find_pending_auth_request-mark_auth_request_used_example :
    (find_pending_auth_request digest stringify parse eve_sso "a" 140 (
      apply_calls digest stringify parse
        (mark_auth_request_used digest stringify parse eve_sso "a" 110 stored)
        afterwards)).0
    ≡ none
find_pending_auth_request-mark_auth_request_used_example =
    find_pending_auth_request-mark_auth_request_used digest stringify parse eve_sso "a" stored 110
      140 afterwards (refl, tt)

record_auth_request_consent_again_example :
    (record_auth_request_consent digest stringify parse eve_sso "a" agreed 150 (
      apply_calls digest stringify parse
        (record_auth_request_consent digest stringify parse eve_sso "a" agreed 110 stored).1
        afterwards)).0
    ≡ false
record_auth_request_consent_again_example =
    record_auth_request_consent_again digest stringify parse eve_sso "a" stored agreed agreed 110
      150 afterwards (omega arith) (refl, tt)

-- The first consent is recorded.
consent_a :
    (record_auth_request_consent digest stringify parse eve_sso "a" agreed 110 stored).0 ≡ true
unfolding record_auth_request_consent count_where delete_where
consent_a = refl
