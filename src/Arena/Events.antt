-- ===== src/Arena/Events.antt =====
-- ChatArena.tsx: `sendEvent`, `sendEdit` and `sendDelete`.
use ep2pchat.Base.{
  String, Option, none, some, List, [], ◌∷◌, map, head?, if◌then◌else◌, or_else, truthy?,
  text_append, true,
}
use ep2pchat.Base.Exec.{Exec, pure, catch, ◌>>=◌, ◌>>◌}
use ep2pchat.Base.Codec.{Json, Base64}
use ep2pchat.Wire.{message}
use ep2pchat.Vault.Messages.{str_eq}
use ep2pchat.Vault.History.{Shown, NewEvent, save_message_event, deleted_text}
use ep2pchat.Vault.Keyed.{get_ratchet_session, save_ratchet_session}
use ep2pchat.Orchestration.{Ratchet}
use ep2pchat.Arena.{Arena, Peer, TargetDevice, on_db, invoke, socket_send, does, encrypted}

module _ (json : Json) (b64 : Base64) (native : Ratchet) where
  open json use {Value, stringify, object}
  open native use {ratchet_encrypt}

  -- `{ type, target_id, ...payload }`; the payloads have other keys.
  abbrev pub event_payload : String → String → List (String × Option String) → Value
  event_payload kind target payload =
      object (("type", some kind) ∷ ("target_id", some target) ∷ payload)

  abbrev pub own_event : String → String → String → List (String × Option String) → NewEvent json
  own_event id kind target payload = record {
    id = id;
    target_msg_id = some target;
    event_type = kind;
    payload = object payload;
  }

  unfoldable pub deliver_event :
      Peer
      → TargetDevice
      → String
      → String
      → String
      → List (String × Option String)
      → String
      → Exec (Arena json b64 native) (Unit {0})
  deliver_event contact device id kind target payload session = do
    r ←
        invoke json b64 native
          (ratchet_encrypt session (stringify (event_payload kind target payload)) contact.id)
    on_db json b64 native (save_ratchet_session contact.id r.new_session_json)
    does json b64 native (
        socket_send json b64 native "MESSAGE_SEND"
          (message (encrypted json b64 native id device none none r)))
    on_db json b64 native (save_message_event json (own_event id kind target payload))

  -- The `try` of `sendEvent`.
  unfoldable pub event_steps :
      Peer
      → TargetDevice
      → String
      → String
      → String
      → List (String × Option String)
      → Exec (Arena json b64 native) (Unit {0})
  event_steps contact device id kind target payload = do
    session ← on_db json b64 native (get_ratchet_session contact.id)
    if truthy? session
        then deliver_event contact device id kind target payload (or_else session "")
        else pure tt

  abbrev pub event_to :
      Option Peer
      → String
      → String
      → String
      → List (String × Option String)
      → Arena json b64 native
      → Arena json b64 native
  event_to none stamp kind target payload a = a
  event_to (some contact) stamp kind target payload a = elim (head? contact.devices) [
    | none ↦ a
    | some device ↦ elim a.client.local_keys [
      | none ↦ a
      | some keys ↦
          (catch (event_steps contact device (text_append "ev-" stamp) kind target payload)
            (λ _. pure tt) a).1
    ]
  ]

  unfoldable pub send_event :
      String
      → String
      → String
      → List (String × Option String)
      → Arena json b64 native
      → Arena json b64 native
  send_event stamp kind target payload a = event_to a.active_contact stamp kind target payload a

  abbrev on_target :
      String → (Shown Value → Shown Value) → Arena json b64 native → Arena json b64 native
  on_target target f a = record a {
    client = record a.client {
      messages = map (λ (m : Shown Value). if str_eq m.id target then f m else m) a.client.messages;
    };
  }

  unfoldable pub send_edit :
      String → String → String → Arena json b64 native → Arena json b64 native
  send_edit stamp target text a =
      on_target target (λ m. record m { text = some text; is_edited = true })
        (send_event stamp "edit" target (("body", some text) ∷ []) a)

  unfoldable pub send_delete : String → String → Arena json b64 native → Arena json b64 native
  send_delete stamp target a =
      on_target target (λ m. record m { is_deleted = true; text = deleted_text })
        (send_event stamp "delete" target [] a)
