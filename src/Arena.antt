-- ===== src/Arena.antt =====
-- apps/desktop/src/features/chat/ChatArena.tsx: the composer. `Arena` is the component's state with
-- the client whose vault, socket and messages it works on. The date that a message is stamped with
-- is an argument: `stamp` is Date.now() in digits, `iso` the ISO text.
pub mod Events
pub mod Composer
pub mod Editing
pub mod View
pub mod Sent
pub mod Relay
pub mod Talk
pub mod Exchange
pub mod Conversation
pub mod Samples
pub mod Tests
use ep2pchat.Base.{
  ◌≡◌, ite, String, Bool, true, false, Option, none, some, List, [], ◌∷◌, ◌++◌, map, head?,
  string_dec, if◌then◌else◌, or_text, or_else, truthy, truthy?, text_append, is_blank, not,
}
use ep2pchat.Base.Dict.{insert}
use ep2pchat.Base.Exec.{Result, ok, err, Exec, pure, throw, catch, ◌>>=◌, ◌>>◌}
use ep2pchat.Base.Codec.{Json, Base64}
use ep2pchat.Socket.{send}
use ep2pchat.Wire.{Outgoing, Encrypted, message, typing, text_fields}
use ep2pchat.Vault.Db.{Db}
use ep2pchat.Vault.Messages.{str_eq, NewMessage, save_message}
use ep2pchat.Vault.History.{Shown, NewEvent, save_message_event, deleted_text}
use ep2pchat.Vault.Keyed.{get_ratchet_session, save_ratchet_session}
use ep2pchat.Orchestration.{LocalKeys, Ratchet, Sealed}
use ep2pchat.Chat.{Client}
use ep2pchat.Toasts.{Toasts, ToastVariant, error, warning, add_toast}

pub record OneTimeKey : Type 0 where
  pub key_id : String
  pub public_key : String

-- What the composer reads of a contact and its first device.
pub record TargetDevice : Type 0 where
  pub device_id : String
  pub identity_key : String
  pub signed_pre_key : String
  pub one_time_pre_key : Option OneTimeKey

pub record Peer : Type 0 where
  pub id : String
  pub devices : List TargetDevice

abbrev public_key_of : Option OneTimeKey → Option String
public_key_of none = none
public_key_of (some k) = some k.public_key

abbrev pub key_id_of : Option OneTimeKey → Option String
key_id_of none = none
key_id_of (some k) = some k.key_id

module _ (json : Json) (b64 : Base64) (native : Ratchet) where
  open json use {Value, stringify, object, empty}
  open native use {Header, alice_x3dh, ratchet_init_sender, ratchet_encrypt}

  pub record Arena : Type 0 where
    pub client : Client json b64 native
    pub active_contact : Option Peer
    pub input_text : String
    pub reply_to : Option (Shown Value)
    pub editing_msg : Option (Shown Value)
    pub toasts : Toasts
    -- the device that the pending timer of the typing mark is for
    pub typing_timeout : Option String

  abbrev pub with_db : Db → Arena → Arena
  with_db d a = record a { client = record a.client { db = d } }

  abbrev pub lifted : {A : Type 0} → Result A × Db → Arena → Result A × Arena
  lifted (r, d) a = (r, with_db d a)

  -- An operation of the vault.
  abbrev pub on_db : {A : Type 0} → Exec Db A → Exec Arena A
  on_db m a = lifted (m a.client.db) a

  abbrev pub invoke : {A : Type 0} → Option A → Exec Arena A
  invoke none = throw "command failed"
  invoke (some r) = pure r

  -- `socket.send`
  abbrev pub socket_send : String → Outgoing Header → Arena → Arena
  socket_send kind p a = record a {
    client = record a.client { socket = send kind p a.client.socket };
  }

  abbrev pub toast : String → ToastVariant → Arena → Arena
  toast text variant a = record a { toasts = add_toast text variant a.toasts }

  -- A step that cannot throw.
  abbrev pub does : (Arena → Arena) → Exec Arena (Unit {0})
  does f a = (ok tt, f a)

  -- The session to encrypt with, and the ephemeral key where it is new.
  unfoldable pub sender_session :
      Option String → TargetDevice → LocalKeys → Exec Arena (String × Option String)
  sender_session stored device keys = if truthy? stored then pure (or_else stored "", none) else (do
    x3dh ← invoke (
        alice_x3dh keys.identity_secret device.identity_key device.signed_pre_key
          (public_key_of device.one_time_pre_key))
    session ← invoke (ratchet_init_sender x3dh.0 device.signed_pre_key)
    pure (session, some x3dh.1))

  abbrev pub text_payload : String → Option String → Value
  text_payload text parent = object (text_fields text parent)

  abbrev pub encrypted :
      String → TargetDevice → Option String → Option String → Sealed Header → Encrypted Header
  encrypted temp_id device ephemeral opk r = record {
    temp_id = temp_id;
    recipient_device_id = device.device_id;
    ciphertext = r.ciphertext;
    ephemeral_public_key = ephemeral;
    used_opk_id = opk;
    header = r.header;
  }

  abbrev pub sent_row : String → String → Option String → String → String → NewMessage json
  sent_row id text parent contact iso = record {
    id = id;
    temp_id = some id;
    sender = "me";
    text = some text;
    is_me = true;
    conversation_id = some contact;
    recipient_id = some contact;
    timestamp = some iso;
    message_status = some "sending";
    parent_id = parent;
    metadata = none;
  }

  -- `myMsg`
  abbrev pub my_message : String → String → Option String → String → Shown Value
  my_message id text parent iso = record {
    id = id;
    sender = "me";
    text = some text;
    timestamp = iso;
    is_me = true;
    status = "sending";
    parent_id = parent;
    reactions = [];
    is_deleted = false;
    is_edited = false;
    metadata = empty;
  }

  -- The store and the composer after a message was handed to the socket.
  abbrev pub composed : String → Shown Value → Arena → Arena
  composed contact m a = record a {
    client = record a.client {
      last_message_by_contact = insert contact m.text a.client.last_message_by_contact;
      messages = a.client.messages ++ m ∷ [];
    };
    input_text = "";
    reply_to = none;
  }

  -- The message once it is encrypted: both writes to the vault may fail without stopping it.
  unfoldable pub deliver :
      Peer
      → TargetDevice
      → String
      → String
      → String
      → Option String
      → Option String
      → Sealed Header
      → Exec Arena (Unit {0})
  deliver contact device id iso text parent ephemeral r = do
    catch (on_db (save_ratchet_session contact.id r.new_session_json)) (λ _. pure tt)
    catch (on_db (save_message json (sent_row id text parent contact.id iso)))
        (λ _. does (toast "Local database error. Message may not be saved." warning))
    does (
        socket_send "MESSAGE_SEND"
          (message (encrypted id device ephemeral (key_id_of device.one_time_pre_key) r)))
    does (composed contact.id (my_message id text parent iso))
    does (socket_send "TYPING_EVENT" (typing device.device_id false))

  -- The `try` of `sendMessage`.
  unfoldable pub send_new :
      Peer
      → TargetDevice
      → LocalKeys
      → String
      → String
      → String
      → Option String
      → Exec Arena (Unit {0})
  send_new contact device keys id iso text parent = do
    stored ← catch (on_db (get_ratchet_session contact.id)) (λ _. pure none)
    start ← sender_session stored device keys
    r ← invoke (ratchet_encrypt start.0 (stringify (text_payload text parent)) contact.id)
    deliver contact device id iso text parent start.1 r

  -- `getErrorMessage` of what a `catch` was given.
  abbrev error_message : String → String → String
  error_message e fallback = if is_blank e then fallback else e

  abbrev pub reply_id : Option (Shown Value) → Option String
  reply_id none = none
  reply_id (some m) = or_text (some m.id) none

  abbrev pub send_at : Option TargetDevice → Peer → LocalKeys → String → String → Arena → Arena
  send_at none contact keys stamp iso a = toast "Recipient keys unavailable." error a
  send_at (some device) contact keys stamp iso a =
      (catch
        (send_new contact device keys (text_append "msg-" stamp) iso a.input_text
          (reply_id a.reply_to))
        (λ e. does (toast (error_message e "Failed to encrypt message.") error)) a).1

  abbrev pub send_with : Option LocalKeys → Peer → String → String → Arena → Arena
  send_with none contact stamp iso a = toast "Local encryption keys are unavailable." error a
  send_with (some keys) contact stamp iso a =
      send_at (head? contact.devices) contact keys stamp iso a

  unfoldable pub send_text : Peer → String → String → Arena → Arena
  send_text contact stamp iso a = send_with a.client.local_keys contact stamp iso a
