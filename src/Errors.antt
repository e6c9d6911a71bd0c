-- ===== src/Errors.antt =====
-- apps/desktop/src/utils/errors.ts: the errors of the client and the texts that it shows for them.
pub mod Shown
pub mod Attempt
use text.Mathlib.Text.{find?}
use ep2pchat.Base.{
  String, Bool, true, false, Option, none, some, string_dec, if◌then◌else◌, is_some, truthy, ite,
}

pub data ErrorCategory : Type 0 where
  network auth forbidden validation crypto vault server maintenance unknown : ErrorCategory

pub record AppError : Type 0 where
  pub message : String
  pub category : ErrorCategory
  pub code : Option String

abbrev pub app_error : String → ErrorCategory → AppError
app_error message category = record { message = message; category = category; code = none }

-- What is thrown: an AppError, another Error with its message, or a value with its text.
pub data Thrown : Type 0 where
  app : AppError → Thrown
  error : String → Thrown
  other : String → Thrown

abbrev pub session_expired : String
session_expired = "Your session has expired. Please log in again."

abbrev pub message_or : String → String → String
message_or message default = ite (string_dec message "") default message

abbrev pub auth_message : String → String
auth_message message = ite (string_dec message "") session_expired (
    ite (string_dec message "Unauthorized") session_expired
      (ite (string_dec message "Request failed with status 401") session_expired message))

-- `getFriendlyMessage`
unfoldable pub friendly_message : AppError → String
friendly_message e = elim e.category [
  | network ↦ "Cannot connect to server. Please check your internet connection."
  | auth ↦ auth_message e.message
  | forbidden ↦ "You don't have permission to perform this action."
  | maintenance ↦ "The server is currently undergoing maintenance. Please try again later."
  | crypto ↦ "A security error occurred during encryption/decryption."
  | vault ↦ "Failed to access local secure storage. Your hardware key might be required."
  | _ ↦ message_or e.message "An unexpected error occurred."
]

abbrev pub includes : String → String → Bool
includes s t = is_some (find? s t)

unfoldable pub handle_error : Thrown → AppError
handle_error (app e) = e
handle_error (error m) =
    if includes m "Failed to fetch"
    then app_error m network
    else if includes m "MAINTENANCE_MODE"
    then app_error "Server is in maintenance mode" maintenance
    else app_error m unknown
handle_error (other s) = app_error s unknown
