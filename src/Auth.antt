-- ===== src/Auth.antt =====
-- apps/desktop/src/features/auth/AuthFlow.tsx: requesting access, signing in and registering the
-- device. `World` has what the server, the native part and the random numbers give to one handler;
-- the handlers are not interleaved.
pub mod Accounts
pub mod Claims
pub mod Organisation
pub mod Login
pub mod Setup
pub mod Request
pub mod Registered
pub mod Stuck
pub mod Tests
use ep2pchat.Base.{
  ℕ, String, Bool, true, false, Option, none, some, List, [], ◌∷◌, map, if◌then◌else◌, or_else,
  truthy?,
}
use ep2pchat.Base.Codec.{Json, Base64}
use ep2pchat.Base.Exec.{Result, ok, err, Exec}
use ep2pchat.Errors.{Thrown, error, AppError, friendly_message}
use ep2pchat.Errors.Attempt.{Outcome, given, thrown, Attempt, give, raise, ◌>>=◌, ◌>>◌}
use ep2pchat.Vault.Db.{Db, LocalKeyRow}
use ep2pchat.Vault.Keys.{Cipher}
use ep2pchat.Vault.Otpk.{OtpkPair, store_otpk_batch}
use ep2pchat.Toasts.{Toasts, ToastVariant, add_toast}
use ep2pchat.Auth.Accounts.{save_account}

pub data View : Type 0 where
  home waiting register loading : View

pub record PreKey : Type 0 where
  pub key_id : ℕ
  pub secret_key : String

-- Keys as they were generated, or as a row of the vault, which has no pre-keys.
pub record Keys : Type 0 where
  pub row : LocalKeyRow
  pub one_time_pre_keys : Option (List PreKey)

-- The arguments of `onAuthenticated`.
pub record Authenticated : Type 0 where
  pub user_id : String
  pub org_id : String
  pub email : String
  pub device_id : String
  pub local_keys : Keys
  pub role : String
  pub username : Option String
  pub department : Option String

pub record Access : Type 0 where
  pub user_id : String
  pub access_code : Option String
  pub status : Option String
  pub error : Option String

pub record Challenge : Type 0 where
  pub challenge : String
  pub devices : List String
  pub user_id : String

-- What signing in, registering and the bootstrap of the administrator answer.
pub record Granted : Type 0 where
  pub token : Option String
  pub org_id : String
  pub device_id : String
  pub username : Option String
  pub department : Option String

pub record World : Type 0 where
  pub request_access : Outcome Access
  pub admin_bootstrap : Outcome Granted
  pub login_challenge : Outcome Challenge
  -- the challenge as `sign_login_challenge` signs it
  pub signature : Outcome String
  pub login_verify : Outcome Granted
  pub generate_keys : Outcome Keys
  pub register_device : Outcome Granted
  pub iv : List ℕ
  pub iv2 : List ℕ

-- The platform: the codecs, `toString` of a number, the text of what `atob` gives, what a failure
-- of the vault throws, and ADMIN_BOOTSTRAP_SETUP_TOKEN.
pub record Platform : Type 1 where
  pub json : Json
  pub b64 : Base64
  pub cipher : Cipher
  pub decimal : ℕ → String
  pub binary_text : List ℕ → String
  pub vault_error : String → Thrown
  pub setup_token : String

pub record AuthFlow : Type 0 where
  pub view : View
  pub email : String
  pub user_id : String
  pub is_maintenance : Bool
  pub loading_step : String
  pub saved_accounts : List String
  pub access_code : String
  pub is_checking_approval : Bool
  pub is_submitting : Bool
  pub local_keys : Option Keys
  pub my_device_id : Option String
  pub db : Db
  -- what `api.setToken` was given last
  pub token : String
  pub authenticated : List Authenticated
  pub toasts : Toasts

abbrev pub toast : String → ToastVariant → AuthFlow → AuthFlow
toast text variant a = record a { toasts = add_toast text variant a.toasts }

-- A step that cannot throw.
abbrev pub does : (AuthFlow → AuthFlow) → Attempt AuthFlow (Unit {0})
does f a = (given tt, f a)

abbrev pub keep_account : String → AuthFlow → AuthFlow
keep_account email a = record a { saved_accounts = save_account email a.saved_accounts }

abbrev pub on_authenticated : Authenticated → AuthFlow → AuthFlow
on_authenticated x a = record a { authenticated = x ∷ a.authenticated }

unfoldable pub handle_cancel_request : AuthFlow → AuthFlow
handle_cancel_request a = record a { view = home; email = ""; user_id = ""; access_code = "" }

module _ (p : Platform) where
  abbrev pub of_vault : {A : Type 0} → Result A × Db → AuthFlow → Outcome A × AuthFlow
  of_vault (ok x, d) a = (given x, record a { db = d })
  of_vault (err e, d) a = (thrown (p.vault_error e), record a { db = d })

  -- An operation of the vault.
  abbrev pub in_vault : {A : Type 0} → Exec Db A → Attempt AuthFlow A
  in_vault m a = of_vault (m a.db) a

  abbrev or_nothing : {A : Type 0} → Outcome (Option A) × AuthFlow → Outcome (Option A) × AuthFlow
  or_nothing (given x, a) = (given x, a)
  or_nothing (thrown e, a) = (given none, a)

  -- `.catch(() => null)`
  abbrev pub or_null : {A : Type 0} → Attempt AuthFlow (Option A) → Attempt AuthFlow (Option A)
  or_null m a = or_nothing (m a)

  -- `key_id.toString()`, and the bytes of the secret.
  abbrev pub pair_of : PreKey → Option (List ℕ) → Outcome OtpkPair
  pair_of k none = thrown (error "InvalidCharacterError")
  pair_of k (some bytes) = given (record { key_id = p.decimal k.key_id; private_key = bytes })

  abbrev and_pair : Outcome OtpkPair → Outcome (List OtpkPair) → Outcome (List OtpkPair)
  and_pair (thrown e) ps = thrown e
  and_pair (given x) (thrown e) = thrown e
  and_pair (given x) (given ps) = given (x ∷ ps)

  unfoldable pub otpk_pairs : List PreKey → Outcome (List OtpkPair)
  otpk_pairs [] = given []
  otpk_pairs (k ∷ ks) = and_pair (pair_of k (p.b64.decode k.secret_key)) (otpk_pairs ks)

  -- `keys.one_time_pre_keys.map(…)`
  abbrev pub all_pairs : Option (List PreKey) → Outcome (List OtpkPair)
  all_pairs none = thrown (error "Cannot read properties of undefined (reading 'map')")
  all_pairs (some ks) = otpk_pairs ks

  unfoldable pub store_pre_keys : Keys → Attempt AuthFlow (Unit {0})
  store_pre_keys keys = do
    pairs ← λ a. (all_pairs keys.one_time_pre_keys, a)
    in_vault (store_otpk_batch p.b64 pairs)
