-- ===== src/Errors/Shown.antt =====
-- errors.ts: every error has a text to show.
use ep2pchat.Base.{◌≡◌, refl, String, true, string_dec, truthy, arith}
use ep2pchat.Errors.{
  AppError, Thrown, network, auth, forbidden, crypto, vault, maintenance, session_expired,
  message_or, auth_message, friendly_message, handle_error,
}

message_or-truthy : (m d : String) → truthy d ≡ true → truthy (message_or m d) ≡ true
message_or-truthy m d h = ground arith

auth_message-truthy : (m : String) → truthy session_expired ≡ true → truthy (auth_message m) ≡ true
auth_message-truthy m h = ground arith

friendly-truthy : (e : AppError) → truthy (friendly_message e) ≡ true
unfolding friendly_message string_dec
friendly-truthy e =
    elim e.category
      as (λ c.
        truthy (friendly_message (record { message = e.message; category = c; code = e.code }))
        ≡ true) [
          | network ↦ refl
          | auth ↦ auth_message-truthy e.message refl
          | forbidden ↦ refl
          | maintenance ↦ refl
          | crypto ↦ refl
          | vault ↦ refl
          | _ ↦ message_or-truthy e.message "An unexpected error occurred." refl
        ]

-- Whatever is thrown, the text that is shown for it is not empty.
pub shown-truthy : (t : Thrown) → truthy (friendly_message (handle_error t)) ≡ true
shown-truthy t = friendly-truthy (handle_error t)
