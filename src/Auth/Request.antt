-- ===== src/Auth/Request.antt =====
-- AuthFlow.tsx: `handleRequestAccess`, `checkApproval` and `handleAccountSelect`.
use ep2pchat.Base.{
  String, true, false, Option, none, some, if◌then◌else◌, or_else, or_text, truthy, truthy?, ite,
  string_dec,
}
use ep2pchat.Errors.{Thrown, AppError, app, error, other, handle_error, friendly_message}
use ep2pchat.Errors.Attempt.{Outcome, given, thrown, Attempt, reply, settled, ◌>>=◌, ◌>>◌}
use ep2pchat.Vault.Db.{LocalKeyRow}
use ep2pchat.Vault.Keys.{get_local_keys}
use ep2pchat.Vault.Keyed.{get_device_id}
use ep2pchat.Vault.Messages.{sql_eq}
use ep2pchat.Toasts.{ToastVariant, info}
use ep2pchat.Api.Health.{can_attempt_admin_bootstrap}
use ep2pchat.Auth.{
  AuthFlow, Keys, World, Platform, Granted, Access, waiting, loading, toast, does, keep_account,
  on_authenticated, in_vault, or_null,
}
use ep2pchat.Auth.Setup.{set_step, complete_setup}
use ep2pchat.Auth.Login.{login_now, handle_login}

module _ (p : Platform) (w : World) where
  abbrev restored : LocalKeyRow → String → String → Granted → AuthFlow → AuthFlow
  restored row device user r a =
      let keys : Keys = record { row = row; one_time_pre_keys = none } in
      on_authenticated
        (record {
          user_id = user;
          org_id = r.org_id;
          email = a.email;
          device_id = device;
          local_keys = keys;
          role = "ADMIN";
          username = r.username;
          department = r.department;
        })
        (keep_account a.email (record a {
          token = or_else r.token "";
          local_keys = some keys;
          my_device_id = some device;
        }))

  -- A returning administrator has keys and a device; another one is set up.
  abbrev pub restore_or_setup :
      String → Granted → Option LocalKeyRow → Option String → Attempt AuthFlow (Unit {0})
  restore_or_setup user r (some row) (some device) =
      if truthy device
      then (do set_step "Restoring secure session..."; does (restored row device user r))
      else complete_setup p w (or_else r.token "") user r.org_id "ADMIN" r.username r.department
          none
  restore_or_setup user r (some row) none =
      complete_setup p w (or_else r.token "") user r.org_id "ADMIN" r.username r.department none
  restore_or_setup user r none device =
      complete_setup p w (or_else r.token "") user r.org_id "ADMIN" r.username r.department none

  unfoldable pub bootstrap : String → Granted → Attempt AuthFlow (Unit {0})
  bootstrap user r = do
    does (λ a. record a { view = loading })
    row ← or_null p (in_vault p (get_local_keys p.b64 p.cipher))
    device ← or_null p (in_vault p get_device_id)
    restore_or_setup user r row device

  abbrev sign_in_as : Access → Attempt AuthFlow (Unit {0})
  sign_in_as res = does (λ a. login_now p w a.email res.user_id a)

  -- The bootstrap where it gave a token, or else the sign-in.
  abbrev pub activated : Access → Outcome Granted → Attempt AuthFlow (Unit {0})
  activated res (thrown e) = sign_in_as res
  activated res (given r) = if truthy? r.token then bootstrap res.user_id r else sign_in_as res

  abbrev pub admit : Access → Attempt AuthFlow (Unit {0})
  admit res =
      if sql_eq res.status "active"
      then (if can_attempt_admin_bootstrap p.setup_token
          then activated res w.admin_bootstrap
          else sign_in_as res)
      else does (λ a. record a { view = waiting })

  abbrev pub known : Access → AuthFlow → AuthFlow
  known res a = record a {
    user_id = res.user_id;
    access_code = or_else (or_text res.access_code none) "";
  }

  -- The `try` of `handleRequestAccess`.
  unfoldable pub request_steps : Attempt AuthFlow (Unit {0})
  request_steps = do res ← reply w.request_access; does (known res); admit res

  abbrev request_failed : AppError → AuthFlow → AuthFlow
  request_failed e a =
      ite (string_dec e.message "MAINTENANCE_MODE") (record a { is_maintenance = true })
        (toast (friendly_message e) ToastVariant.error a)

  abbrev pub request_now : AuthFlow → AuthFlow
  request_now a =
      record (settled request_steps (λ _ b. b) (λ t. request_failed (handle_error t))
        (record a { is_submitting = true; is_maintenance = false })) { is_submitting = false }

  unfoldable pub handle_request_access : AuthFlow → AuthFlow
  handle_request_access a = if a.is_submitting then a else request_now a

  abbrev approved : Access → AuthFlow → AuthFlow
  approved res a =
      if sql_eq res.status "active"
      then handle_login p w a.email res.user_id a
      else toast "Still pending approval..." info a

  unfoldable pub check_approval : AuthFlow → AuthFlow
  check_approval a =
      record (settled (reply w.request_access) approved
        (λ _. toast "Failed to check approval status." ToastVariant.error)
        (record a { is_checking_approval = true })) { is_checking_approval = false }

  -- `err.message`; a thrown value that is no error has none.
  abbrev thrown_message : Thrown → Option String
  thrown_message (app e) = some e.message
  thrown_message (error m) = some m
  thrown_message (other s) = none

  abbrev select_failed : Option String → AuthFlow → AuthFlow
  select_failed m a =
      toast (or_else (or_text m none) "Failed to reach server for selected account.")
        ToastVariant.error a

  abbrev selected : String → Access → AuthFlow → AuthFlow
  selected email res a =
      if truthy? res.error
      then select_failed res.error a
      else if sql_eq res.status "active"
      then login_now p w email res.user_id (known res a)
      else record (known res a) { view = waiting }

  unfoldable pub handle_account_select : String → AuthFlow → AuthFlow
  handle_account_select email a =
      if a.is_submitting
      then a
      else record (settled (reply w.request_access) (selected email)
          (λ t. select_failed (thrown_message t))
          (record a { is_submitting = true; email = email })) { is_submitting = false }
