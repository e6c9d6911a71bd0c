-- ===== src/Api/Endpoints.antt =====
-- api.ts: the endpoints, each a request that `requestJson` makes.
use ep2pchat.Base.{
  ℕ, String, Option, none, some, List, [], ◌∷◌, ite, string_dec, or_text, text_append,
}
use ep2pchat.Base.Codec.{Json}
use ep2pchat.Api.{
  Field, text, texts, value, Body, nothing, object, payload, Request, Net, Reply, json_headers,
  auth_headers, request_json,
}

-- `String(n)`, encodeURIComponent and the setup token of the build.
pub record Platform : Type 0 where
  pub decimal : ℕ → String
  pub encode_uri_component : String → String
  pub setup_token : String

pub record AuditFilters : Type 0 where
  pub action : Option String
  pub email : Option String
  pub start_date : Option String
  pub end_date : Option String

module _ (json : Json) (platform : Platform) where
  open json use {Value}
  open platform use {decimal, encode_uri_component, setup_token}

  -- The functions that need no session.
  pub data PublicCall : Type 0 where
    request_access admin_bootstrap login_challenge : String → PublicCall
    register_device login_verify : Value → PublicCall

  pub data AdminCall : Type 0 where
    get_pending_users get_org_settings get_all_users get_audit_logs_legacy : AdminCall
    approve_user deny_user get_user_devices revoke_admin_device nuke_device : String → AdminCall
    approve_user_legacy revoke_device_legacy revoke_device : String → AdminCall
    get_audit_logs : ℕ → ℕ → AuditFilters → AdminCall
    approve_bulk deny_bulk : List String → AdminCall
    update_device_alias : String → String → AdminCall
    update_org_settings : Value → AdminCall

  pub data UserCall : Type 0 where
    logout get_users get_my_devices fetch_stories : UserCall
    revoke_own_device get_user_keys : String → UserCall
    upload_keys update_profile : Value → UserCall
    upload_story : String → String → UserCall
    log_security_event : String → Value → UserCall

  abbrev post : String → List (String × String) → Body json → Request json
  post path headers body = record { path = path; method = "POST"; headers = headers; body = body }

  abbrev get : String → List (String × String) → Request json
  get path headers = record { path = path; method = "GET"; headers = headers; body = nothing }

  abbrev one : String → String → Body json
  one name s = object ((name, text s) ∷ [])

  abbrev setup_fields : List (String × Field json)
  setup_fields = ite (string_dec setup_token "") [] (("setup_token", text setup_token) ∷ [])

  unfoldable pub public_request : PublicCall → Request json
  public_request (request_access email) =
      post "/auth/request-access" json_headers (one "email" email)
  public_request (admin_bootstrap email) =
      post "/auth/admin-bootstrap" json_headers (object (("email", text email) ∷ setup_fields))
  public_request (login_challenge email) =
      post "/auth/login/challenge" json_headers (one "email" email)
  public_request (register_device v) = post "/auth/register-device" json_headers (payload v)
  public_request (login_verify v) = post "/auth/login/verify" json_headers (payload v)

  -- `/devices/${deviceId}/alias` and the like.
  abbrev around : String → String → String → String
  around before id after = text_append before (text_append id after)

  abbrev filter : String → Option String → String → String
  filter name o url = elim (or_text o none) [
    | none ↦ url
    | some s ↦ text_append url (text_append name (encode_uri_component s))
  ]

  unfoldable pub audit_url : ℕ → ℕ → AuditFilters → String
  audit_url page page_size f = filter "&end_date=" f.end_date (
      filter "&start_date=" f.start_date (
        filter "&email=" f.email (
          filter "&action=" f.action (
            text_append "/admin/audit?page="
              (text_append (decimal page) (text_append "&page_size=" (decimal page_size)))))))

  unfoldable pub admin_request : String → AdminCall → Request json
  admin_request token get_pending_users = get "/admin/pending" (auth_headers token)
  admin_request token (approve_user id) =
      post (text_append "/admin/approve/" id) (auth_headers token) nothing
  admin_request token (deny_user id) =
      post (text_append "/admin/deny/" id) (auth_headers token) nothing
  admin_request token (get_user_devices id) =
      get (text_append "/admin/devices/" id) (auth_headers token)
  admin_request token (revoke_admin_device id) =
      post (text_append "/admin/revoke/" id) (auth_headers token) nothing
  admin_request token (get_audit_logs page page_size filters) =
      get (audit_url page page_size filters) (auth_headers token)
  admin_request token (approve_bulk ids) =
      post "/admin/bulk-approve" (auth_headers token) (object (("user_ids", texts ids) ∷ []))
  admin_request token (deny_bulk ids) =
      post "/admin/bulk-deny" (auth_headers token) (object (("user_ids", texts ids) ∷ []))
  admin_request token (update_device_alias id alias) =
      post (around "/admin/devices/" id "/alias") (auth_headers token) (one "alias" alias)
  admin_request token (nuke_device id) =
      post (around "/admin/devices/" id "/nuke") (auth_headers token) nothing
  admin_request token get_org_settings = get "/admin/settings" (auth_headers token)
  admin_request token (update_org_settings v) =
      post "/admin/settings" (auth_headers token) (payload v)
  admin_request token (approve_user_legacy id) =
      post "/admin/approve-user" (auth_headers token) (one "user_id" id)
  admin_request token get_all_users = get "/admin/users" (auth_headers token)
  admin_request token get_audit_logs_legacy = get "/admin/audit-logs" (auth_headers token)
  admin_request token (revoke_device_legacy id) =
      post "/admin/revoke-device" (auth_headers token) (one "device_id" id)
  admin_request token (revoke_device id) =
      post (text_append "/admin/revoke/" id) (auth_headers token) nothing

  unfoldable pub user_request : String → UserCall → Request json
  user_request token logout = post "/auth/logout" (auth_headers token) nothing
  user_request token get_users = get "/users/users" (auth_headers token)
  user_request token get_my_devices = get "/users/devices" (auth_headers token)
  user_request token (revoke_own_device id) =
      post "/users/revoke-device" (auth_headers token) (one "device_id" id)
  user_request token (upload_keys v) = post "/keys/upload" (auth_headers token) (payload v)
  user_request token (get_user_keys id) = get (text_append "/keys/" id) (auth_headers token)
  user_request token (update_profile v) = record {
    path = "/users/profile";
    method = "PATCH";
    headers = auth_headers token;
    body = payload v;
  }
  user_request token (upload_story ciphertext nonce) =
      post "/stories" (auth_headers token)
        (object (("ciphertext_b64", text ciphertext) ∷ ("nonce_b64", text nonce) ∷ []))
  user_request token fetch_stories = get "/stories" (auth_headers token)
  user_request token (log_security_event action details) =
      post "/users/audit/log-event" (auth_headers token)
        (object (("action", text action) ∷ ("details", value details) ∷ []))

  pub data Call : Type 0 where
    unauthenticated : PublicCall → Call
    admin : AdminCall → Call
    user : UserCall → Call

  unfoldable pub request_of : String → Call → Request json
  request_of token (unauthenticated c) = public_request c
  request_of token (admin c) = admin_request token c
  request_of token (user c) = user_request token c

  unfoldable pub make_call : Call → Net json → Reply json × Net json
  make_call c s = request_json json decimal (request_of s.auth_token c) s

  -- Calls one after the other; what they return is left out.
  unfoldable pub make_calls : List Call → Net json → Net json
  make_calls [] s = s
  make_calls (c ∷ cs) s = make_calls cs (make_call c s).1
