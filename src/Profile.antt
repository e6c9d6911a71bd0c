-- ===== src/Profile.antt =====
-- apps/desktop/src/hooks/useProfileWorkflows.ts: the profile, the presence and the devices of the
-- user. What the server answers is an argument.
pub mod Settled
use ep2pchat.Base.{
  ◌≡◌, String, Bool, true, false, Option, none, some, List, [], if◌then◌else◌, or_else, truthy,
  text_append,
}
use ep2pchat.Base.Dict.{insert}
use ep2pchat.Stores.{SessionState, Presence, online, offline, away}
use ep2pchat.Toasts.{Toasts, ToastVariant, success, error, add_toast}
use ep2pchat.Workflows.{Answer, loaded, failed}

pub record Profile (D : Type 0) : Type 0 where
  pub session : Option SessionState
  pub presence_by_contact : List (String × Presence)
  pub is_saving_profile : Bool
  pub is_revoking_device : Option String
  pub my_devices : List D
  pub toasts : Toasts

abbrev presence_name : Presence → String
presence_name online = "online"
presence_name offline = "offline"
presence_name away = "away"

-- `{ ...session, username, department }`
abbrev pub renamed : String → String → Option SessionState → Option SessionState
renamed username department none = none
renamed username department (some s) =
    some (record s { username = some username; department = some department })

abbrev pub with_presence :
    Presence → Option SessionState → List (String × Presence) → List (String × Presence)
with_presence status none ps = ps
with_presence status (some s) ps = if truthy s.user_id then insert s.user_id status ps else ps

-- `text + err.message`
abbrev failure : String → Option String → String
failure text message = text_append text (or_else message "undefined")

module _ {D : Type 0} where
  abbrev toast : String → ToastVariant → Profile D → Profile D
  toast message variant p = record p { toasts = add_toast message variant p.toasts }

  unfoldable pub refresh_my_devices : Answer (Option (List D)) → Profile D → Profile D
  refresh_my_devices (loaded devices) p = record p { my_devices = or_else devices [] }
  refresh_my_devices (failed m) p = p

  abbrev saved : String → String → Answer (Unit {0}) → Profile D → Profile D
  saved username department (loaded _) p =
      toast "Profile updated successfully" success
        (record p { session = renamed username department p.session })
  saved username department (failed m) p = toast (failure "Failed to update profile: " m) error p

  unfoldable pub handle_save_profile : String → String → Answer (Unit {0}) → Profile D → Profile D
  handle_save_profile username department answer p =
      record (saved username department answer (record p { is_saving_profile = true })) {
        is_saving_profile = false;
      }

  unfoldable pub handle_presence_change : Presence → Answer (Unit {0}) → Profile D → Profile D
  handle_presence_change status (loaded _) p =
      toast (text_append "Status updated to " (presence_name status)) success
        (record p { presence_by_contact = with_presence status p.session p.presence_by_contact })
  handle_presence_change status (failed m) p =
      toast (failure "Failed to update presence: " m) error p

  abbrev revoked : Answer (Unit {0}) → Answer (Option (List D)) → Profile D → Profile D
  revoked (loaded _) devices p = toast "Device revoked" success (refresh_my_devices devices p)
  revoked (failed m) devices p = toast (failure "Failed to revoke device: " m) error p

  unfoldable pub handle_revoke_own_device :
      String → Answer (Unit {0}) → Answer (Option (List D)) → Profile D → Profile D
  handle_revoke_own_device device_id answer devices p =
      record (revoked answer devices (record p { is_revoking_device = some device_id })) {
        is_revoking_device = none;
      }
