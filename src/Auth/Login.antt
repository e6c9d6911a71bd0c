-- ===== src/Auth/Login.antt =====
-- AuthFlow.tsx: `handleLogin`.
use ep2pchat.Base.{
  String, true, false, Option, none, some, if◌then◌else◌, or_else, or_text, truthy, ite, string_dec,
}
use ep2pchat.Errors.{AppError, handle_error, friendly_message, includes}
use ep2pchat.Errors.Attempt.{Attempt, reply, settled, ◌>>=◌, ◌>>◌}
use ep2pchat.Vault.Db.{LocalKeyRow}
use ep2pchat.Vault.Keys.{get_local_keys}
use ep2pchat.Vault.Keyed.{get_device_id}
use ep2pchat.Workflows.{has}
use ep2pchat.Toasts.{ToastVariant, info}
use ep2pchat.Auth.{
  AuthFlow, Keys, World, Platform, Granted, Challenge, register, toast, does, keep_account,
  on_authenticated, in_vault, or_null,
}
use ep2pchat.Auth.Claims.{claimed_role}
use ep2pchat.Auth.Setup.{set_step}

module _ (p : Platform) (w : World) (email uid : String) where
  abbrev signed_in : LocalKeyRow → String → String → Granted → AuthFlow → AuthFlow
  signed_in row device user r a =
      let keys : Keys = record { row = row; one_time_pre_keys = none } in
      on_authenticated
        (record {
          user_id = user;
          org_id = r.org_id;
          email = email;
          device_id = device;
          local_keys = keys;
          role =
              or_else (or_text (claimed_role p.json p.b64 p.binary_text (or_else r.token "")) none)
                "USER";
          username = r.username;
          department = r.department;
        })
        (keep_account email (record a {
          token = or_else r.token "";
          local_keys = some keys;
          my_device_id = some device;
        }))

  abbrev needs_device : AuthFlow → AuthFlow
  needs_device a = if truthy uid then record a { user_id = uid; view = register } else a

  -- The challenge is signed where the server knows the device.
  abbrev pub sign_in : Challenge → Option LocalKeyRow → Option String → Attempt AuthFlow (Unit {0})
  sign_in c none device = does needs_device
  sign_in c (some row) none = does needs_device
  sign_in c (some row) (some device) =
      if truthy device
      then (if has device c.devices
          then (do
            set_step "Signing security challenge..."
            signature ← reply w.signature
            r ← reply w.login_verify
            does (signed_in row device c.user_id r))
          else does needs_device)
      else does needs_device

  -- The `try` of `handleLogin`.
  unfoldable pub login_steps : Attempt AuthFlow (Unit {0})
  login_steps = do
    c ← reply w.login_challenge
    row ← or_null p (in_vault p (get_local_keys p.b64 p.cipher))
    device ← or_null p (in_vault p get_device_id)
    sign_in c row device

  abbrev login_failed : AppError → AuthFlow → AuthFlow
  login_failed e a =
      if includes e.message "Signature verification failed"
      then record (toast "Secure identity mismatch. Re-provisioning required." info a) {
        user_id = uid;
        view = register;
      }
      else ite (string_dec e.message "MAINTENANCE_MODE") (record a { is_maintenance = true })
          (toast (friendly_message e) ToastVariant.error a)

  -- What follows the guard.
  unfoldable pub login_now : AuthFlow → AuthFlow
  login_now a =
      record (settled login_steps (λ _ b. b) (λ t. login_failed (handle_error t))
        (record a { is_submitting = true; is_maintenance = false })) { is_submitting = false }

  unfoldable pub handle_login : AuthFlow → AuthFlow
  handle_login a = if a.is_submitting then a else login_now a
