-- ===== src/Api/Tests.antt =====
-- The theorems on the REST client at concrete inputs.
use ep2pchat.Base.{refl, none, some, [], ◌∷◌}
use ep2pchat.Samples.{toy_json}
use ep2pchat.Api.{Response, Net, request_json}
use ep2pchat.Api.Endpoints.{
  Platform, Call, admin, user, unauthenticated, get_pending_users, fetch_stories, login_challenge,
  request_of, make_call, make_calls,
}
use ep2pchat.Api.Outcome.{Verdict, category_of, request_json-Verdict}
use ep2pchat.Api.Token.{Added, expired_session}

abbrev toy_platform : Platform
toy_platform = record { decimal = λ n. "n"; encode_uri_component = λ s. s; setup_token = "" }

abbrev unauthorized : Response toy_json
unauthorized = record { status = 401; content = none }

abbrev signed_in : Net toy_json
signed_in = record { auth_token = "jwt"; answers = some unauthorized ∷ none ∷ []; sent = [] }

abbrev pending_call : Call toy_json toy_platform
pending_call = admin get_pending_users

request_json-Verdict_example : Verdict toy_json toy_platform.decimal (some unauthorized) (
    category_of
      (request_json toy_json toy_platform.decimal
        (request_of toy_json toy_platform "jwt" pending_call)
        signed_in).0)
request_json-Verdict_example =
    request_json-Verdict toy_json toy_platform.decimal
      (request_of toy_json toy_platform "jwt" pending_call) signed_in

expired_session_example :
    let t = (make_call toy_json toy_platform pending_call signed_in).1 in
    Added toy_json toy_platform t.sent
      (make_calls toy_json toy_platform
        (user fetch_stories ∷ unauthenticated (login_challenge "a") ∷ [])
        t).sent
expired_session_example =
    expired_session toy_json toy_platform pending_call
      (user fetch_stories ∷ unauthenticated (login_challenge "a") ∷ []) unauthorized signed_in refl
      refl
