-- ===== src/Arena/Composer.antt =====
-- ChatArena.tsx: `sendMessage`, the keys and the changes of the composer.
use ep2pchat.Base.{
  String, Bool, true, false, Option, none, some, List, [], ◌∷◌, head?, if◌then◌else◌, or_else,
  is_blank, not, is_some,
}
use ep2pchat.Base.Codec.{Json, Base64}
use ep2pchat.Wire.{typing}
use ep2pchat.Vault.History.{Shown}
use ep2pchat.Orchestration.{Ratchet}
use ep2pchat.Arena.{Arena, Peer, send_text, socket_send}
use ep2pchat.Arena.Events.{send_edit}

module _ (json : Json) (b64 : Base64) (native : Ratchet) where
  open json use {Value}

  abbrev pub compose_to :
      Option Peer
      → Option (Shown Value)
      → String
      → String
      → Arena json b64 native
      → Arena json b64 native
  compose_to none editing stamp iso a = a
  compose_to (some contact) (some m) stamp iso a =
      record (send_edit json b64 native stamp m.id a.input_text a) {
        editing_msg = none;
        input_text = "";
      }
  compose_to (some contact) none stamp iso a = send_text json b64 native contact stamp iso a

  unfoldable pub send_message : String → String → Arena json b64 native → Arena json b64 native
  send_message stamp iso a =
      if is_blank a.input_text then a else compose_to a.active_contact a.editing_msg stamp iso a

  pub data Key : Type 0 where
    -- with Shift held, or not
    enter : Bool → Key
    escape : Key
    other : Key

  unfoldable pub handle_composer_key_down :
      Key → String → String → Arena json b64 native → Arena json b64 native
  handle_composer_key_down (enter true) stamp iso a = a
  handle_composer_key_down (enter false) stamp iso a = send_message stamp iso a
  handle_composer_key_down escape stamp iso a = record a {
    reply_to = none;
    editing_msg = none;
    input_text = if is_some a.editing_msg then a.input_text else "";
  }
  handle_composer_key_down other stamp iso a = a

  abbrev first_device : Option Peer → Option String
  first_device none = none
  first_device (some contact) = elim (head? contact.devices) [
    | none ↦ none
    | some device ↦ some device.device_id
  ]

  abbrev pub typed_to : Option String → String → Arena json b64 native → Arena json b64 native
  typed_to none val a = a
  typed_to (some device) val a =
      record (socket_send json b64 native "TYPING_EVENT" (typing device (not (is_blank val))) a) {
        typing_timeout = some device;
      }

  -- The `onChange` of the text area.
  unfoldable pub change_text : String → Arena json b64 native → Arena json b64 native
  change_text val a = typed_to (first_device a.active_contact) val (record a { input_text = val })

  -- The callback of the timer, 1200 ms after the last change.
  unfoldable pub typing_stops : Arena json b64 native → Arena json b64 native
  typing_stops a = elim a.typing_timeout [
    | none ↦ a
    | some device ↦ record (socket_send json b64 native "TYPING_EVENT" (typing device false) a) {
      typing_timeout = none;
    }
  ]

  abbrev pub edited_text : Option (Shown Value) → String → String
  edited_text none text = text
  edited_text (some m) text = or_else m.text ""

  -- The effect that runs when the text or the message that is edited has changed.
  unfoldable pub composer_effect : Arena json b64 native → Arena json b64 native
  composer_effect a = record a { input_text = edited_text a.editing_msg a.input_text }

  -- What a user does: a change of the text, or the choice of a message to edit, and the effect.
  unfoldable pub type_text : String → Arena json b64 native → Arena json b64 native
  type_text val a = composer_effect (change_text val a)

  unfoldable pub start_edit : Shown Value → Arena json b64 native → Arena json b64 native
  start_edit m a = composer_effect (record a { editing_msg = some m })

  -- Text after text.
  unfoldable pub type_texts : List String → Arena json b64 native → Arena json b64 native
  type_texts [] a = a
  type_texts (t ∷ ts) a = type_texts ts (type_text t a)
