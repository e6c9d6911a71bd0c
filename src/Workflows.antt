-- ===== src/Workflows.antt =====
-- apps/desktop/src/hooks/useChatWorkflows.ts: opening a chat, and the contacts that are muted or
-- pinned. What the vault and the server answer is an argument; a contact that is opened is an
-- entry of the store's list, so that what is written to it is seen there.
pub mod Started
pub mod Kept
pub mod Tests
use ep2pchat.Base.{
  ℕ, ◌≡◌, String, Bool, true, false, Option, none, some, List, [], ◌∷◌, ◌++◌, map, ite, string_dec,
  if◌then◌else◌, or_text, or_else, any_if, keep_if, not,
}
use ep2pchat.Base.Dict.{insert}
use ep2pchat.Stores.{
  Contact, DeviceBundle, ChatState, UiState, to, by, idle, key_exchange, ratcheting,
  set_active_contact, set_messages, set_unread_by_contact, set_handshake_status,
  set_is_sidebar_open,
}
use ep2pchat.Toasts.{Toasts, error, add_toast}

-- A value, or what was thrown with its message.
pub data Answer (A : Type 0) : Type 0 where
  loaded : A → Answer A
  failed : Option String → Answer A

abbrev pub has : String → List String → Bool
has id ids = any_if (λ i. elim (string_dec i id) [ yes _ ↦ true | no _ ↦ false ]) ids

-- `handleMuteToggle` and `handlePinToggle` on the set.
unfoldable pub toggle : String → List String → List String
toggle id ids =
    if has id ids
    then keep_if (λ i. elim (string_dec i id) [ yes _ ↦ false | no _ ↦ true ]) ids
    else ids ++ id ∷ []

pub record Workspace (M S : Type 0) : Type 0 where
  pub chat : ChatState M S
  pub ui : UiState
  pub toasts : Toasts

abbrev pub with_devices : List DeviceBundle → Contact → Contact
with_devices devices contact = record contact { devices = some devices }

module _ {M S : Type 0} where
  abbrev show_error : Option String → String → Workspace M S → Workspace M S
  show_error message default w = record w {
    toasts = add_toast (or_else (or_text message none) default) error w.toasts;
  }

  unfoldable pub open_contact : Contact → Workspace M S → Workspace M S
  open_contact contact w = record w {
    ui = if w.ui.is_narrow_layout then set_is_sidebar_open false w.ui else w.ui;
    chat =
        set_unread_by_contact (by (insert contact.id 0))
          (set_active_contact (some contact) (set_handshake_status key_exchange w.chat));
  }

  unfoldable pub load_history : Answer (List M) → Workspace M S → Workspace M S
  load_history (loaded history) w = record w { chat = set_messages (to history) w.chat }
  load_history (failed m) w =
      show_error m "Failed to load history" (record w { chat = set_messages (to []) w.chat })

  -- `contact.devices = bundle.devices`
  abbrev write_devices : Contact → List DeviceBundle → ChatState M S → ChatState M S
  write_devices contact devices s = record s {
    active_contact = some (with_devices devices contact);
    contacts =
        map (λ (c : Contact). ite (string_dec c.id contact.id) (with_devices devices c) c)
          s.contacts;
  }

  unfoldable pub load_keys : Contact → Answer (List DeviceBundle) → Workspace M S → Workspace M S
  load_keys contact (loaded devices) w = record w {
    chat = set_handshake_status ratcheting (write_devices contact devices w.chat);
  }
  load_keys contact (failed m) w =
      let v = show_error m "Failed to load keys" w in
      record v { chat = set_handshake_status idle v.chat }

  unfoldable pub start_chat :
      Contact → Answer (List M) → Answer (List DeviceBundle) → Workspace M S → Workspace M S
  start_chat contact history bundle w =
      load_keys contact bundle (load_history history (open_contact contact w))

  -- The callback of the timer that `startChat` sets last.
  unfoldable pub handshake_done : Workspace M S → Workspace M S
  handshake_done w = record w { chat = set_handshake_status idle w.chat }
