-- ===== src/Chat.antt =====
-- apps/desktop/src/features/chat/useChat.ts: the handlers of what the socket receives. `Client` is
-- what they work on: the vault, the socket, the chat store and the hook's references. The
-- handlers' awaits are not interleaved with one another.
pub mod Live
pub mod Ack
pub mod Received
pub mod Closed
pub mod Status
pub mod Reports
pub mod Tests
use ep2pchat.Base.{
  ℕ, zero, suc, ◌+◌, ◌≡◌, ite, String, Bool, true, false, Option, none, some, List, [], ◌∷◌, ◌++◌,
  map, string_dec, if◌then◌else◌, or_text, or_else, truthy, truthy?, ◌||◌, ◌&&◌,
}
use ep2pchat.Base.Dict.{lookup, insert}
use ep2pchat.Base.Exec.{Result, ok, err, Exec, pure}
use ep2pchat.Base.Codec.{Json, Base64}
use ep2pchat.Socket.{Socket, send}
use ep2pchat.Wire.{Outgoing, message_id}
use ep2pchat.Vault.Db.{Db}
use ep2pchat.Vault.Messages.{
  str_eq, sql_eq, NewMessage, save_message, update_message_status, reconcile_temp_message_id,
}
use ep2pchat.Vault.History.{Shown, NewEvent, save_message_event, deleted_text}
use ep2pchat.Vault.Keyed.{save_story_key}
use ep2pchat.Orchestration.{LocalKeys, Ratchet, Incoming, Decrypted, process_incoming_message}

module _ (json : Json) (b64 : Base64) (native : Ratchet) where
  open json use {Value, parse, stringify, field, member, empty}

  pub record Client : Type 0 where
    pub db : Db
    pub socket : Socket (Outgoing native.Header)
    pub messages : List (Shown Value)
    pub last_message_by_contact : List (String × Option String)
    pub typing_by_contact : List (String × Bool)
    pub unread_by_contact : List (String × ℕ)
    pub temp_to_server_id : List (String × String)
    pub active_contact_id : Option String
    pub local_keys : Option LocalKeys
    pub user_id : Option String

  -- What a plaintext says: its JSON, if that has a type, or else a text with that body.
  pub record Structured : Type 0 where
    pub kind : String
    pub body : Option String
    pub parent_id : Option String
    pub target_id : Option String
    pub metadata : Value
    pub whole : Value

  abbrev plain : String → Structured
  plain text = record {
    kind = "text";
    body = some text;
    parent_id = none;
    target_id = none;
    metadata = empty;
    whole = empty;
  }

  abbrev typed : String → Value → Option String → Structured
  typed text v none = plain text
  typed text v (some kind) =
      if truthy kind
      then (record {
        kind = kind;
        body = field v "body";
        parent_id = or_text (field v "parent_id") none;
        target_id = field v "target_id";
        metadata = or_else (member v "metadata") empty;
        whole = v;
      })
      else plain text

  abbrev structured_from : String → Option Value → Structured
  structured_from text none = plain text
  structured_from text (some v) = typed text v (field v "type")

  pub structured_of : String → Structured
  structured_of text = structured_from text (parse text)

  pub emit : String → String → Client → Client
  emit kind id c = record c { socket = send kind (message_id id) c.socket }

  abbrev pub unread_of : Option ℕ → ℕ
  unread_of none = 0
  unread_of (some n) = n

  -- The store updates for a new message, after it was saved and acknowledged.
  pub show_message : String → Shown Value → Client → Client
  unfolding emit
  show_message conversation m c0 =
      let c = record c0 {
        last_message_by_contact = insert conversation m.text c0.last_message_by_contact;
        typing_by_contact = insert conversation false c0.typing_by_contact;
      } in
      if sql_eq c.active_contact_id conversation
      then emit "MESSAGE_READ" m.id (record c { messages = c.messages ++ m ∷ [] })
      else record c {
        unread_by_contact =
            insert conversation (unread_of (lookup conversation c.unread_by_contact) + 1)
              c.unread_by_contact;
      }

  abbrev pub shown_message : Incoming b64 native → Structured → Shown Value
  shown_message payload s = record {
    id = payload.message_id;
    sender = payload.sender_device_id;
    text = s.body;
    timestamp = payload.timestamp;
    is_me = false;
    status = "received";
    parent_id = s.parent_id;
    reactions = [];
    is_deleted = false;
    is_edited = false;
    metadata = s.metadata;
  }

  abbrev pub saved_message :
      Incoming b64 native → Structured → String → Option String → NewMessage json
  saved_message payload s conversation user_id = record {
    id = payload.message_id;
    temp_id = none;
    sender = payload.sender_device_id;
    text = s.body;
    is_me = false;
    conversation_id = some conversation;
    recipient_id = user_id;
    timestamp = some payload.timestamp;
    message_status = some "received";
    parent_id = s.parent_id;
    metadata = some s.metadata;
  }

  -- `try { await save; socket.send(MESSAGE_ACK) } catch { return }`, and what follows.
  abbrev pub acknowledged : String → (Client → Client) → Client → Result (Unit {0}) × Db → Client
  acknowledged id rest c (ok _, d) = rest (emit "MESSAGE_ACK" id (record c { db = d }))
  acknowledged id rest c (err x, d) = record c { db = d }

  pub receive_message : Incoming b64 native → Structured → String → Client → Client
  receive_message payload s conversation c =
      acknowledged payload.message_id (show_message conversation (shown_message payload s)) c
        (save_message json (saved_message payload s conversation c.user_id) c.db)

  -- The update of the shown messages by an edit, a deletion or a reaction.
  unfoldable pub live_event : Structured → Shown Value → Shown Value
  live_event s m =
      if sql_eq s.target_id m.id
      then (if str_eq s.kind "edit"
          then record m { text = s.body; is_edited = true }
          else if str_eq s.kind "delete"
          then record m { is_deleted = true; text = deleted_text }
          else if str_eq s.kind "reaction"
          then record m { reactions = m.reactions ++ field s.whole "emoji" ∷ [] }
          else m)
      else m

  pub show_event : String → Structured → Client → Client
  show_event conversation s c =
      if sql_eq c.active_contact_id conversation
      then record c { messages = map (live_event s) c.messages }
      else c

  abbrev pub saved_event : Incoming b64 native → Structured → NewEvent json
  saved_event payload s = record {
    id = payload.message_id;
    target_msg_id = s.target_id;
    event_type = s.kind;
    payload = s.whole;
  }

  pub receive_event : Incoming b64 native → Structured → String → Client → Client
  receive_event payload s conversation c =
      acknowledged payload.message_id (show_event conversation s) c
        (save_message_event json (saved_event payload s) c.db)

  pub receive_structured : Incoming b64 native → Structured → String → Client → Client
  receive_structured payload s conversation c =
      if str_eq s.kind "text" || str_eq s.kind "reply"
      then receive_message payload s conversation c
      else receive_event payload s conversation c

  abbrev pub received :
      Incoming b64 native → Client → Result (Option (Decrypted b64 native)) × Db → Client
  received payload c (ok (some r), d) =
      receive_structured payload (structured_of r.plaintext) r.conversation_id (record c { db = d })
  received payload c (ok none, d) = record c { db = d }
  received payload c (err x, d) = record c { db = d }

  abbrev pub incoming_with : Incoming b64 native → Option LocalKeys → Client → Client
  incoming_with payload none c = c
  incoming_with payload (some keys) c =
      received payload c (process_incoming_message b64 native payload keys c.active_contact_id c.db)

  pub handle_incoming_message : Incoming b64 native → Client → Client
  handle_incoming_message payload c = incoming_with payload c.local_keys c
