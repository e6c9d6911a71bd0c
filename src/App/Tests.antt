-- ===== src/App/Tests.antt =====
-- The theorems on sessions and on the socket's messages at concrete inputs.
use ep2pchat.Base.{ℕ, ◌≡◌, refl, true, none, some, [], ◌∷◌, length}
use ep2pchat.Samples.{toy_b64, toy_json, toy_ratchet, own_keys}
use ep2pchat.Socket.{new_socket}
use ep2pchat.Stores.{online, chat_initial, ui_initial}
use ep2pchat.Toasts.{no_toasts}
use ep2pchat.Workflows.{loaded}
use ep2pchat.Vault.Tests.{open_db}
use ep2pchat.Workflows.Tests.{bob}
use ep2pchat.Chat.Tests.{client, incoming}
use ep2pchat.App.{App, SignedIn, load_workspace, handle_authenticated, handle_logout}
use ep2pchat.App.Dispatch.{Desk, dispatches, message_receive, presence_update}
use ep2pchat.App.Unseen.{dispatches-length}
use ep2pchat.App.Session.{IsOut, Keeps, logout-authenticated}

abbrev desk : Desk toy_json toy_b64 toy_ratchet
desk = record {
  client = record client { active_contact_id = none };
  presence_by_contact = [];
  ui = ui_initial;
  toasts = no_toasts;
}

dispatches-length_example :
    length
      (dispatches toy_json toy_b64 toy_ratchet
        (message_receive incoming ∷ presence_update "bob" online ∷ [])
        desk).client.messages
    ≡ 0
dispatches-length_example =
    dispatches-length toy_json toy_b64 toy_ratchet
      (message_receive incoming ∷ presence_update "bob" online ∷ []) desk refl

abbrev app : App ℕ ℕ ℕ
app = record {
  chats = record chat_initial {
    contacts = bob ∷ [];
    last_message_by_contact = ("bob", "secret") ∷ [];
  };
  account = record { session = none; local_keys = some own_keys; my_device_id = none };
  ui = ui_initial;
  socket = new_socket;
  db = open_db;
  token = "t";
  toasts = no_toasts;
}

abbrev eve : SignedIn
eve = record {
  user_id = "eve";
  org_id = "o";
  email = "eve@example.org";
  device_id = "d2";
  keys = own_keys;
  role = "USER";
  username = none;
  department = none;
}

logout-authenticated_example :
    IsOut (handle_logout true app)
    × Keeps app.chats
        (load_workspace "eve"
          (loaded (some (bob ∷ [])))
          none
          (handle_authenticated eve (handle_logout true app))).chats
logout-authenticated_example = logout-authenticated eve (loaded (some (bob ∷ []))) none app
