-- ===== src/Auth/Tests.antt =====
-- The theorems on signing in at concrete inputs.
use ep2pchat.Base.{◌≡◌, refl, String, true, false, none, some, [], ◌∷◌, string_dec, head?}
use ep2pchat.Base.Dict.{lookup}
use ep2pchat.Base.Exec.{ok}
use ep2pchat.Errors.{other}
use ep2pchat.Errors.Attempt.{given}
use ep2pchat.Samples.{toy_b64, toy_json, toy_cipher, text_of}
use ep2pchat.Vault.Db.{Db, LocalKeyRow, no_rows, init_vault, select, get_vault_passphrase, touch}
use ep2pchat.Vault.Keys.{
  get_local_keys, decrypt_row, decrypt_secret, derive_vault_key, hex_to_buffer, last_active,
  first_of, rest_of,
}
use ep2pchat.Vault.Keyed.{get_device_id}
use ep2pchat.Toasts.{no_toasts}
use ep2pchat.Api.Health.{can_attempt_admin_bootstrap}
use ep2pchat.Auth.{AuthFlow, World, Platform, Access, Granted, home, loading}
use ep2pchat.Auth.Accounts.{IsSaved, save_account, save_account-IsSaved}
use ep2pchat.Auth.Request.{handle_request_access}
use ep2pchat.Auth.Stuck.{IsReturning, handle_request_access-stuck}

save_account-IsSaved_example :
    IsSaved (save_account "b" ("a" ∷ "b" ∷ "c" ∷ "d" ∷ "e" ∷ []))
    × (head? (save_account "b" ("a" ∷ "b" ∷ "c" ∷ "d" ∷ "e" ∷ [])) ≡ some "b")
save_account-IsSaved_example = save_account-IsSaved "b" ("a" ∷ "b" ∷ "c" ∷ "d" ∷ "e" ∷ [])

-- Twelve bytes, and no secret after them.
abbrev secret : String
secret = text_of (0 ∷ 0 ∷ 0 ∷ 0 ∷ 0 ∷ 0 ∷ 0 ∷ 0 ∷ 0 ∷ 0 ∷ 0 ∷ 0 ∷ [])

abbrev row : LocalKeyRow
row = record {
  identity_public = "ip";
  identity_secret = "";
  signed_pre_key_public = "sp";
  signed_pre_key_secret = "";
  signed_pre_key_signature = "sig";
  is_active = true;
}

-- An open vault with keys and no device.
abbrev keyed_db : Db
keyed_db = record {
  opened = true;
  cached_secret = some "";
  tables = record no_rows {
    local_keys = record row { identity_secret = secret; signed_pre_key_secret = secret } ∷ [];
  };
  saved = none;
  faults = [];
  keychain = "";
  fts_empty = true;
  now = "2026-01-01";
}

abbrev platform : Platform
platform = record {
  json = toy_json;
  b64 = toy_b64;
  cipher = toy_cipher;
  decimal = λ n. "1";
  binary_text = text_of;
  vault_error = other;
  setup_token = "setup";
}

abbrev access : Access
access = record { user_id = "u1"; access_code = some "123"; status = some "active"; error = none }

abbrev grant : Granted
grant = record {
  token = some "t";
  org_id = "o";
  device_id = "d1";
  username = none;
  department = none;
}

abbrev world : World
world = record {
  request_access = given access;
  admin_bootstrap = given grant;
  login_challenge = given (record { challenge = "c"; devices = []; user_id = "u1" });
  signature = given "s";
  login_verify = given grant;
  generate_keys = given (record { row = row; one_time_pre_keys = some [] });
  register_device = given grant;
  iv = [];
  iv2 = [];
}

abbrev flow : AuthFlow
flow = record {
  view = home;
  email = "admin@example.org";
  user_id = "u1";
  is_maintenance = false;
  loading_step = "";
  saved_accounts = [];
  access_code = "123";
  is_checking_approval = false;
  is_submitting = false;
  local_keys = none;
  my_device_id = none;
  db = keyed_db;
  token = "";
  authenticated = [];
  toasts = no_toasts;
}

keyed_db-keys : get_local_keys toy_b64 toy_cipher keyed_db ≡ (ok (some row), keyed_db)
unfolding get_local_keys decrypt_row decrypt_secret derive_vault_key hex_to_buffer last_active
    init_vault select get_vault_passphrase first_of rest_of string_dec touch
keyed_db-keys = refl

keyed_db-device : get_device_id keyed_db ≡ (ok none, keyed_db)
unfolding get_device_id init_vault select lookup
keyed_db-device = refl

abbrev flow-IsReturning : IsReturning platform world flow
unfolding string_dec can_attempt_admin_bootstrap
flow-IsReturning = record {
  idle = refl;
  res = access;
  asked = refl;
  active = refl;
  configured = refl;
  grant = grant;
  granted = refl;
  with_token = refl;
  row = row;
  keyed = keyed_db-keys;
  deviceless = keyed_db-device;
}

handle_request_access-stuck_example :
    let b = handle_request_access platform world flow in
    (b.view ≡ loading) × (b.authenticated ≡ flow.authenticated) × (b.is_submitting ≡ false)
handle_request_access-stuck_example =
    handle_request_access-stuck platform world flow flow-IsReturning
