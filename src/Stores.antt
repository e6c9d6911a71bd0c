-- ===== src/Stores.antt =====
-- apps/desktop/src/stores: the chat store, the session store and the store of the interface, each a
-- record with its setters; and the records of types/index.ts that they keep.
use ep2pchat.Base.{ℕ, ◌+◌, String, Bool, false, Option, none, List, []}

pub data Presence : Type 0 where
  online offline away : Presence

pub data HandshakeStatus : Type 0 where
  idle key_exchange ratcheting : HandshakeStatus

pub data RootView : Type 0 where
  auth onboarding chat admin : RootView

pub data SecurityStatus : Type 0 where
  protected alert danger : SecurityStatus

pub record DeviceBundle : Type 0 where
  pub device_id : String
  pub identity_key : String
  pub signed_pre_key : String
  pub signed_pre_key_signature : String
  pub one_time_pre_key : Option String

pub record Contact : Type 0 where
  pub id : String
  pub email : String
  pub username : Option String
  pub department : Option String
  pub status : Option String
  pub presence_status : Option Presence
  pub last_seen : Option String
  pub device_count : Option ℕ
  pub devices : Option (List DeviceBundle)

pub record SessionState : Type 0 where
  pub user_id : String
  pub org_id : String
  pub email : String
  pub role : String
  pub username : Option String
  pub department : Option String

-- The argument of a setter: a value, or a function of the one that was there.
pub data Setting (A : Type 0) : Type 0 where
  to : A → Setting A
  by : (A → A) → Setting A

abbrev pub applied : {A : Type 0} → Setting A → A → A
applied (to a) b = a
applied (by f) b = f b

pub record ChatState (M S : Type 0) : Type 0 where
  pub contacts : List Contact
  pub active_contact : Option Contact
  pub messages : List M
  pub unread_by_contact : List (String × ℕ)
  pub last_message_by_contact : List (String × String)
  pub typing_by_contact : List (String × Bool)
  pub presence_by_contact : List (String × Presence)
  pub handshake_status : HandshakeStatus
  pub all_stories : List S

module _ {M S : Type 0} where
  abbrev pub chat_initial : ChatState M S
  chat_initial = record {
    contacts = [];
    active_contact = none;
    messages = [];
    unread_by_contact = [];
    last_message_by_contact = [];
    typing_by_contact = [];
    presence_by_contact = [];
    handshake_status = idle;
    all_stories = [];
  }

  abbrev pub set_contacts : List Contact → ChatState M S → ChatState M S
  set_contacts cs s = record s { contacts = cs }

  abbrev pub set_active_contact : Option Contact → ChatState M S → ChatState M S
  set_active_contact c s = record s { active_contact = c }

  abbrev pub set_messages : Setting (List M) → ChatState M S → ChatState M S
  set_messages u s = record s { messages = applied u s.messages }

  abbrev pub set_unread_by_contact : Setting (List (String × ℕ)) → ChatState M S → ChatState M S
  set_unread_by_contact u s = record s { unread_by_contact = applied u s.unread_by_contact }

  abbrev pub set_last_message_by_contact :
      Setting (List (String × String)) → ChatState M S → ChatState M S
  set_last_message_by_contact u s = record s {
    last_message_by_contact = applied u s.last_message_by_contact;
  }

  abbrev pub set_typing_by_contact : Setting (List (String × Bool)) → ChatState M S → ChatState M S
  set_typing_by_contact u s = record s { typing_by_contact = applied u s.typing_by_contact }

  abbrev pub set_presence_by_contact :
      Setting (List (String × Presence)) → ChatState M S → ChatState M S
  set_presence_by_contact u s = record s { presence_by_contact = applied u s.presence_by_contact }

  abbrev pub set_handshake_status : HandshakeStatus → ChatState M S → ChatState M S
  set_handshake_status h s = record s { handshake_status = h }

  abbrev pub set_all_stories : List S → ChatState M S → ChatState M S
  set_all_stories ss s = record s { all_stories = ss }

pub record AuthState (K : Type 0) : Type 0 where
  pub session : Option SessionState
  pub local_keys : Option K
  pub my_device_id : Option String

module _ {K : Type 0} where
  abbrev pub set_session : Option SessionState → AuthState K → AuthState K
  set_session v s = record s { session = v }

  abbrev pub set_local_keys : Option K → AuthState K → AuthState K
  set_local_keys v s = record s { local_keys = v }

  abbrev pub set_my_device_id : Option String → AuthState K → AuthState K
  set_my_device_id v s = record s { my_device_id = v }

  abbrev pub logged_out : AuthState K → AuthState K
  logged_out s = record { session = none; local_keys = none; my_device_id = none }

pub record UiState : Type 0 where
  pub root_view : RootView
  pub sidebar_width_px : ℕ
  pub is_sidebar_open : Bool
  pub show_user_settings : Bool
  pub show_identity_modal : Bool
  pub security_status : SecurityStatus
  pub is_narrow_layout : Bool
  pub admin_refresh_trigger : ℕ

abbrev pub ui_initial : UiState
ui_initial = record {
  root_view = auth;
  sidebar_width_px = 260;
  is_sidebar_open = false;
  show_user_settings = false;
  show_identity_modal = false;
  security_status = protected;
  is_narrow_layout = false;
  admin_refresh_trigger = 0;
}

abbrev pub set_is_sidebar_open : Bool → UiState → UiState
set_is_sidebar_open b s = record s { is_sidebar_open = b }

abbrev pub set_root_view : RootView → UiState → UiState
set_root_view v s = record s { root_view = v }

abbrev pub set_sidebar_width_px : ℕ → UiState → UiState
set_sidebar_width_px n s = record s { sidebar_width_px = n }

abbrev pub set_show_user_settings : Bool → UiState → UiState
set_show_user_settings b s = record s { show_user_settings = b }

abbrev pub set_show_identity_modal : Bool → UiState → UiState
set_show_identity_modal b s = record s { show_identity_modal = b }

abbrev pub set_security_status : SecurityStatus → UiState → UiState
set_security_status v s = record s { security_status = v }

abbrev pub set_is_narrow_layout : Bool → UiState → UiState
set_is_narrow_layout b s = record s { is_narrow_layout = b }

abbrev pub trigger_admin_refresh : UiState → UiState
trigger_admin_refresh s = record s { admin_refresh_trigger = s.admin_refresh_trigger + 1 }
