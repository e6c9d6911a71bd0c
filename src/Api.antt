-- ===== src/Api.antt =====
-- apps/desktop/src/infrastructure/api.ts: the REST client. `Net` has the module's token, the
-- requests that were made and the answers to come.
pub mod Endpoints
pub mod Token
pub mod Health
pub mod Outcome
pub mod Tests
use ep2pchat.Base.{
  ℕ, ◌≡◌, String, Bool, true, false, Option, none, some, List, [], ◌∷◌, ◌++◌, map, ite, string_dec,
  if◌then◌else◌, nat_eq, leb, or_else, or_text, truthy, truthy?, text_append, ◌&&◌, ◌||◌,
  ℕ_discrete, dec_lt,
}
use ep2pchat.Base.Codec.{Json}
use ep2pchat.Errors.{
  ErrorCategory, network, auth, forbidden, validation, server, maintenance, AppError, app_error,
}

abbrev pub json_headers : List (String × String)
json_headers = ("Content-Type", "application/json") ∷ []

unfoldable pub auth_headers : String → List (String × String)
auth_headers token =
    ite (string_dec token "") json_headers
      (("Content-Type", "application/json") ∷ ("Authorization", text_append "Bearer " token) ∷ [])

-- `res.ok`
abbrev pub is_ok : ℕ → Bool
is_ok status = leb 200 status && leb status 299

module _ (json : Json) where
  open json use {Value, field, empty}

  -- A field of a body, as it goes into JSON.stringify; one that is undefined is left out there.
  pub data Field : Type 0 where
    text : String → Field
    texts : List String → Field
    value : Value → Field

  pub data Body : Type 0 where
    nothing : Body
    object : List (String × Field) → Body
    payload : Value → Body

  pub record Request : Type 0 where
    pub path : String
    pub method : String
    pub headers : List (String × String)
    pub body : Body

  -- The status, and the body if it is JSON.
  pub record Response : Type 0 where
    pub status : ℕ
    pub content : Option Value

  pub record Net : Type 0 where
    pub auth_token : String
    -- what `fetch` gives: a response, or a rejection
    pub answers : List (Option Response)
    pub sent : List Request

  pub data Reply : Type 0 where
    data_ : Value → Reply
    failed : AppError → Reply

  unfoldable pub set_token : String → Net → Net
  set_token token s = record s { auth_token = token }

  unfoldable pub get_token : Net → String
  get_token s = s.auth_token

  module _ (decimal : ℕ → String) where
    unfoldable pub error_of : Response → Option String
    error_of r = or_text (field (or_else r.content empty) "error") none

    unfoldable pub message_of : Response → String
    message_of r =
        or_else (error_of r) (text_append "Request failed with status " (decimal r.status))

    -- The errors of a response that is not ok.
    unfoldable pub refusal : Response → AppError
    refusal r =
        let m = message_of r in
        ite (ℕ_discrete r.status 401) (app_error m auth) (
          ite (ℕ_discrete r.status 403) (app_error m forbidden) (
            ite (string_dec m "MAINTENANCE_MODE") (app_error m maintenance) (
              ite (dec_lt r.status 500)
                (record { message = m; category = validation; code = some (decimal r.status) })
                (app_error m server))))

    abbrev pub accepted : Response → Option String → Reply
    accepted r none = data_ (or_else r.content empty)
    accepted r (some e) =
        failed (app_error e (ite (string_dec e "MAINTENANCE_MODE") maintenance validation))

    unfoldable pub answered : Response → Net → Reply × Net
    answered r s =
        if is_ok r.status
        then (accepted r (error_of r), s)
        else (failed (refusal r), ite (ℕ_discrete r.status 401) (set_token "" s) s)

    abbrev pub fetched : List (Option Response) → Net → Reply × Net
    fetched (some r ∷ rest) s = answered r (record s { answers = rest })
    fetched (none ∷ rest) s =
        (failed (app_error "Network request failed" network), record s { answers = rest })
    fetched [] s = (failed (app_error "Network request failed" network), s)

    -- `requestJson`
    unfoldable pub request_json : Request → Net → Reply × Net
    request_json q s = fetched s.answers (record s { sent = s.sent ++ q ∷ [] })
