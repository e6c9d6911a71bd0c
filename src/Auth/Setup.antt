-- ===== src/Auth/Setup.antt =====
-- AuthFlow.tsx: `completeSetup` and `handleRegisterDevice`.
use ep2pchat.Base.{
  String, true, false, Option, none, some, if◌then◌else◌, or_else, or_text, truthy, truthy?,
  text_append, ◌&&◌,
}
use ep2pchat.Errors.{Thrown, error, handle_error, friendly_message}
use ep2pchat.Errors.Attempt.{Outcome, given, thrown, Attempt, give, reply, settle, ◌>>=◌, ◌>>◌}
use ep2pchat.Vault.Db.{LocalKeyRow}
use ep2pchat.Vault.Keys.{save_local_keys, get_local_keys}
use ep2pchat.Vault.Keyed.{save_device_id}
use ep2pchat.Toasts.{ToastVariant}
use ep2pchat.Auth.{
  AuthFlow, Keys, World, Platform, Authenticated, Granted, register, loading, toast, does,
  keep_account, on_authenticated, in_vault, or_null, store_pre_keys,
}
use ep2pchat.Auth.Claims.{claimed_role}

abbrev pub set_step : String → Attempt AuthFlow (Unit {0})
set_step text = does (λ a. record a { loading_step = text })

module _ (p : Platform) (w : World) where
  -- The stored keys, or new ones that are saved.
  unfoldable pub keys_for : Option LocalKeyRow → Attempt AuthFlow Keys
  keys_for (some row) = give (record { row = row; one_time_pre_keys = none })
  keys_for none = do
    set_step "Generating X25519 Identity Keys..."
    keys ← reply w.generate_keys
    in_vault p (save_local_keys p.b64 p.cipher w.iv w.iv2 keys.row)
    give keys

  abbrev or_failed : Outcome (Unit {0}) × AuthFlow → Outcome (Unit {0}) × AuthFlow
  or_failed (given _, a) = (given tt, a)
  or_failed (thrown e, a) = (
    thrown (
        error (text_append "Failed to save keys to local secure vault: " (handle_error e).message)),
    a,
  )

  abbrev pub stored_or_failed : Keys → Attempt AuthFlow (Unit {0})
  stored_or_failed keys a = or_failed (store_pre_keys p keys a)

  abbrev pub save_device : Option String → Attempt AuthFlow (Unit {0})
  save_device device =
      if truthy? device then in_vault p (save_device_id (or_else device "")) else give tt

  unfoldable pub complete_setup :
      String
      → String
      → String
      → String
      → Option String
      → Option String
      → Option String
      → Attempt AuthFlow (Unit {0})
  complete_setup token uid org role username department device = do
    does (λ a. record a { token = token; user_id = uid })
    stored ← or_null p (in_vault p (get_local_keys p.b64 p.cipher))
    keys ← keys_for stored
    does (λ a. record a { local_keys = some keys })
    set_step "Finalizing secure vault..."
    stored_or_failed keys
    does (λ a. record a { my_device_id = or_text device none })
    save_device device
    does (λ a.
        on_authenticated
          (record {
            user_id = uid;
            org_id = org;
            email = a.email;
            device_id = or_else (or_text device none) "TEMP";
            local_keys = keys;
            role = role;
            username = username;
            department = department;
          })
          (keep_account a.email a))

  -- The arguments of `onAuthenticated` for the registered device.
  abbrev pub granted_to : Keys → Granted → AuthFlow → Authenticated
  granted_to keys r a = record {
    user_id = a.user_id;
    org_id = r.org_id;
    email = a.email;
    device_id = r.device_id;
    local_keys = keys;
    role =
        or_else (or_text (claimed_role p.json p.b64 p.binary_text (or_else r.token "")) none)
          "USER";
    username = r.username;
    department = r.department;
  }

  abbrev pub registered : Keys → Granted → AuthFlow → AuthFlow
  registered keys r a = on_authenticated (granted_to keys r a) (
      keep_account a.email (record a {
        token = or_else r.token "";
        local_keys = some keys;
        my_device_id = some r.device_id;
      }))

  -- The `try` of `handleRegisterDevice`.
  unfoldable pub register_steps : Attempt AuthFlow (Unit {0})
  register_steps = do
    set_step "Generating cryptographic identity..."
    keys ← reply w.generate_keys
    set_step "Registering device with organization..."
    r ← reply w.register_device
    in_vault p (save_local_keys p.b64 p.cipher w.iv w.iv2 keys.row)
    in_vault p (save_device_id r.device_id)
    store_pre_keys p keys
    does (registered keys r)

  abbrev refused : Thrown → AuthFlow → AuthFlow
  refused e a =
      toast (friendly_message (handle_error e)) ToastVariant.error (record a { view = register })

  -- The `catch` and the `finally`.
  abbrev pub ended : Outcome (Unit {0}) × AuthFlow → AuthFlow
  ended r = record (settle r (λ _ b. b) refused) { is_submitting = false }

  abbrev pub started : AuthFlow → AuthFlow
  started a = record a { view = loading; is_submitting = true }

  unfoldable pub handle_register_device : AuthFlow → AuthFlow
  handle_register_device a =
      if a.is_submitting
      then a
      else if truthy a.user_id && truthy a.access_code
      then ended (register_steps (started a))
      else toast "Missing access code. Please request access again." ToastVariant.error a
