-- ===== src/Chat/Tests.antt =====
-- The theorems on the incoming messages at concrete inputs.
use ep2pchat.Base.{
  String, ◌≡◌, ◌≢◌, refl, String, true, false, none, some, [], ◌∷◌, map, arith, string_dec,
}
use ep2pchat.Base.Exec.{ok}
use ep2pchat.Base.Dict.{lookup, insert}
use ep2pchat.Samples.Objects.{put_fields, put_text}
use ep2pchat.Samples.{toy_b64, toy_json, toy_ratchet, own_keys}
use ep2pchat.Socket.{new_socket}
use ep2pchat.Vault.Db.{Db, MessageRow, no_rows, execute, select, init_vault}
use ep2pchat.Vault.Keyed.{get_ratchet_session, save_ratchet_session}
use ep2pchat.Vault.Messages.{str_eq, ids_distinct, confirm_rows}
use ep2pchat.Vault.History.{resolve, event_row}
use ep2pchat.Vault.Tests.{open_db}
use ep2pchat.Orchestration.{
  Incoming, Decrypted, process_for, process_step, session_for, decrypt_with,
  process_incoming_message,
}
use ep2pchat.Orchestration.Released.{IsStored, process-IsStored}
use ep2pchat.Chat.{
  Client, Structured, structured_of, live_event, saved_event, handle_incoming_message,
}
use ep2pchat.Chat.Reports.{handle_message_status, handle_message_confirm}
use ep2pchat.Chat.Live.{live-resolve}
use ep2pchat.Chat.Ack.{Answer, incoming_message-Answer}
use ep2pchat.Chat.Status.{status-confirm}

abbrev edit_text : String
edit_text =
    put_fields (("type", some "edit") ∷ ("target_id", some "m1") ∷ ("body", some "new") ∷ [])

abbrev pub incoming : Incoming toy_b64 toy_ratchet
incoming = record {
  message_id = "e1";
  sender_user_id = some "bob";
  sender_device_id = "bob's phone";
  sender_identity_key = none;
  ephemeral_public_key = none;
  used_opk_id = none;
  header = some 0;
  ciphertext = put_text "bob" edit_text;
  timestamp = "2026-01-02";
}

abbrev sent_row : MessageRow
sent_row = record {
  id = "m1";
  temp_id = none;
  conversation_id = some "bob";
  sender_id = "bob";
  recipient_id = none;
  parent_id = none;
  content = some "old";
  metadata = none;
  timestamp = "2026-01-01";
  is_me = false;
  message_status = "received";
}

abbrev temp_row : MessageRow
temp_row = record sent_row { id = "t1"; is_me = true; message_status = "sending" }

abbrev pub full_db : Db
full_db = record open_db {
  tables = record no_rows {
    messages = sent_row ∷ temp_row ∷ [];
    ratchet_sessions = ("bob", "s") ∷ [];
  };
}

abbrev pub client : Client toy_json toy_b64 toy_ratchet
client = record {
  db = full_db;
  socket = new_socket;
  messages = [];
  last_message_by_contact = [];
  typing_by_contact = [];
  unread_by_contact = [];
  temp_to_server_id = [];
  active_contact_id = some "bob";
  local_keys = some own_keys;
  user_id = some "alice";
}

abbrev edit : Structured toy_json toy_b64 toy_ratchet
edit = structured_of toy_json toy_b64 toy_ratchet edit_text

live-resolve_example :
    map
      (live_event toy_json toy_b64 toy_ratchet edit)
      (map (resolve toy_json []) (sent_row ∷ temp_row ∷ []))
    ≡ map
        (resolve toy_json (
          event_row toy_json "2026-01-03" (saved_event toy_json toy_b64 toy_ratchet incoming edit)
          ∷ []))
        (sent_row ∷ temp_row ∷ [])
live-resolve_example =
    live-resolve toy_json toy_b64 toy_ratchet incoming edit_text "2026-01-03" []
      (sent_row ∷ temp_row ∷ [])

incoming_message-Answer_example :
    Answer toy_json toy_b64 toy_ratchet "e1" client.socket
      (handle_incoming_message toy_json toy_b64 toy_ratchet incoming client)
incoming_message-Answer_example =
    incoming_message-Answer toy_json toy_b64 toy_ratchet incoming client

ne_of_test : (s t : String) → str_eq s t ≡ false → s ≢ t
ne_of_test s t h = ground arith

t1≢m2 : ◌≢◌ {A = String} "t1" "m2"
unfolding string_dec
t1≢m2 = ne_of_test "t1" "m2" refl

rows-distinct : ids_distinct (confirm_rows "t1" "m2" none client.db.tables.messages) ≡ true
unfolding string_dec confirm_rows
rows-distinct = refl

status-confirm_example :
    let d =
      handle_message_confirm toy_json toy_b64 toy_ratchet (some "t1") (some "m2") none client in
    (handle_message_status toy_json toy_b64 toy_ratchet "m2" "read" d).db.tables.messages
    ≡ d.db.tables.messages
unfolding string_dec
status-confirm_example =
    status-confirm toy_json toy_b64 toy_ratchet "t1" "m2" "read" none client t1≢m2 refl refl refl
      refl rows-distinct tt

abbrev shown : Decrypted toy_b64 toy_ratchet
shown = record { conversation_id = "bob"; plaintext = edit_text; new_session_json = "s+" }

abbrev advanced_db : Db
advanced_db = record full_db {
  tables = record full_db.tables { ratchet_sessions = ("bob", "s+") ∷ [] };
}

process-shown :
    process_incoming_message toy_b64 toy_ratchet incoming own_keys (some "bob") full_db
    ≡ (ok (some shown), advanced_db)
unfolding process_incoming_message process_for process_step session_for decrypt_with
    get_ratchet_session save_ratchet_session init_vault select execute string_dec lookup insert
process-shown = refl

process-IsStored_example : IsStored "bob" "s+" advanced_db
process-IsStored_example =
    process-IsStored toy_b64 toy_ratchet incoming own_keys (some "bob") full_db advanced_db shown
      process-shown
