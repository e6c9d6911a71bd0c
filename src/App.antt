-- ===== src/App.antt =====
-- apps/desktop/src/hooks/useAppInitialization.ts and apps/desktop/src/app/App.tsx: the start and the
-- end of a session, and which view is rendered. What the server answers is an argument.
pub mod Dispatch
pub mod Unseen
pub mod Session
pub mod Onboarding
pub mod Tests
use ep2pchat.Base.{
  ◌≡◌, String, Bool, true, false, Option, none, some, List, [], ◌∷◌, if◌then◌else◌, or_else,
  or_text, truthy, truthy?, keep_if, not,
}
use ep2pchat.Base.Dict.{insert}
use ep2pchat.Base.Exec.{Result, Exec}
use ep2pchat.Socket.{Socket, connect, destroy}
use ep2pchat.Vault.Db.{Db}
use ep2pchat.Vault.Messages.{str_eq}
use ep2pchat.Vault.Keyed.{save_device_id}
use ep2pchat.Orchestration.{LocalKeys}
use ep2pchat.Stores.{
  Contact, Presence, SessionState, ChatState, AuthState, UiState, RootView, auth, onboarding, chat,
  admin, to, set_contacts, set_messages, set_presence_by_contact, set_session, set_local_keys,
  set_my_device_id, logged_out, set_root_view,
}
use ep2pchat.Toasts.{Toasts, error, add_toast}
use ep2pchat.Workflows.{Answer, loaded, failed}

pub record MyDevice : Type 0 where
  pub id : String
  pub is_active : Bool

-- The arguments of `handleAuthenticated`.
pub record SignedIn : Type 0 where
  pub user_id : String
  pub org_id : String
  pub email : String
  pub device_id : String
  pub keys : LocalKeys
  pub role : String
  pub username : Option String
  pub department : Option String

pub record App (P M S : Type 0) : Type 0 where
  pub chats : ChatState M S
  pub account : AuthState LocalKeys
  pub ui : UiState
  pub socket : Socket P
  pub db : Db
  pub token : String
  pub toasts : Toasts

-- The users but oneself.
unfoldable pub others : String → List Contact → List Contact
others user_id users = keep_if (λ (u : Contact). not (str_eq u.id user_id)) users

abbrev with_status : Contact → Option Presence → List (String × Presence) → List (String × Presence)
with_status u none ps = ps
with_status u (some status) ps = insert u.id status ps

-- In the order of the users, onto `ps`.
unfoldable pub initial_presence : List Contact → List (String × Presence) → List (String × Presence)
initial_presence [] ps = ps
initial_presence (u ∷ us) ps = initial_presence us (with_status u u.presence_status ps)

unfoldable pub current_device : List MyDevice → Option MyDevice
current_device [] = none
current_device (d ∷ ds) = if d.is_active then some d else current_device ds

-- What App.tsx renders.
pub data Shell : Type 0 where
  auth_flow admin_panel onboarding_wizard main_shell : Shell

unfoldable pub shell_of : RootView → Option SessionState → Shell
shell_of auth s = auth_flow
shell_of admin s = admin_panel
shell_of onboarding (some s) = onboarding_wizard
shell_of onboarding none = main_shell
shell_of chat s = main_shell

module _ {P M S : Type 0} where
  abbrev use_device : Option MyDevice → App P M S → App P M S
  use_device none a = a
  use_device (some d) a =
      if truthy d.id
      then record a {
        account = set_my_device_id (some d.id) a.account;
        db = (save_device_id d.id a.db).1;
      }
      else a

  abbrev pub with_users : List Contact → App P M S → App P M S
  with_users users a = record a {
    chats = set_presence_by_contact (to (initial_presence users [])) (set_contacts users a.chats);
  }

  -- The devices are none where that request failed; the settings of the organisation are not used.
  unfoldable pub load_workspace :
      String → Answer (Option (List Contact)) → Option (List MyDevice) → App P M S → App P M S
  load_workspace user_id (loaded users) devices a =
      use_device (current_device (or_else devices []))
        (with_users (others user_id (or_else users [])) a)
  load_workspace user_id (failed m) devices a = record a {
    toasts = add_toast (or_else (or_text m none) "Failed to load workspace") error a.toasts;
  }

  -- Before the workspace is loaded.
  unfoldable pub handle_authenticated : SignedIn → App P M S → App P M S
  handle_authenticated x a = record a {
    account = set_my_device_id (some x.device_id) (
        set_local_keys (some x.keys) (
          set_session
            (some (record {
              user_id = x.user_id;
              org_id = x.org_id;
              email = x.email;
              role = x.role;
              username = x.username;
              department = x.department;
            }))
            a.account));
    socket = connect a.token (some x.device_id) a.socket;
    ui = set_root_view (if truthy? x.username then chat else onboarding) a.ui;
  }

  -- The answers of the server and of the native part to the end of the session are not used.
  unfoldable pub handle_logout : Bool → App P M S → App P M S
  handle_logout false a = a
  handle_logout true a = record a {
    socket = destroy a.socket;
    token = "";
    account = logged_out a.account;
    chats = set_messages (to []) (set_contacts [] a.chats);
    ui = set_root_view auth a.ui;
  }

  -- `onBack` of the administration.
  unfoldable pub leave_admin : App P M S → App P M S
  leave_admin a = record a {
    ui = set_root_view (elim a.account.session [ none ↦ auth | some _ ↦ chat ]) a.ui;
  }
