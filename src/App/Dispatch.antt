-- ===== src/App/Dispatch.antt =====
-- useAppInitialization.ts: what the handler of the socket does with each type of message.
use ep2pchat.Base.{String, Bool, Option, List, [], ◌∷◌, text_append}
use ep2pchat.Base.Dict.{insert}
use ep2pchat.Base.Codec.{Json, Base64}
use ep2pchat.Orchestration.{Ratchet, Incoming}
use ep2pchat.Chat.{Client, handle_incoming_message}
use ep2pchat.Chat.Reports.{
  handle_message_status, handle_message_confirm, handle_typing_event, handle_story_key_share,
}
use ep2pchat.Stores.{Presence, UiState, trigger_admin_refresh}
use ep2pchat.Toasts.{Toasts, info, add_toast}

module _ (json : Json) (b64 : Base64) (native : Ratchet) where
  -- A message of the socket with what is read of its payload.
  pub data WsMessage : Type 0 where
    message_receive : Incoming b64 native → WsMessage
    message_status : String → String → WsMessage
    message_confirm : Option String → Option String → Option String → WsMessage
    typing_event : Option String → Bool → WsMessage
    presence_update : String → Presence → WsMessage
    admission_request : String → WsMessage
    story_key_share : Incoming b64 native → WsMessage
    other : WsMessage

  pub record Desk : Type 0 where
    pub client : Client json b64 native
    pub presence_by_contact : List (String × Presence)
    pub ui : UiState
    pub toasts : Toasts

  abbrev at_client : (Client json b64 native → Client json b64 native) → Desk → Desk
  at_client f d = record d { client = f d.client }

  unfoldable pub dispatch : WsMessage → Desk → Desk
  dispatch (message_receive p) d = at_client (handle_incoming_message json b64 native p) d
  dispatch (message_status id status) d =
      at_client (handle_message_status json b64 native id status) d
  dispatch (message_confirm temp server at) d =
      at_client (handle_message_confirm json b64 native temp server at) d
  dispatch (typing_event sender is_typing) d =
      at_client (handle_typing_event json b64 native sender is_typing) d
  dispatch (presence_update user status) d = record d {
    presence_by_contact = insert user status d.presence_by_contact;
  }
  dispatch (admission_request email) d = record d {
    toasts = add_toast (text_append "New admission request from " email) info d.toasts;
    ui = trigger_admin_refresh d.ui;
  }
  dispatch (story_key_share p) d = at_client (handle_story_key_share json b64 native p) d
  dispatch other d = d

  -- One message after another.
  unfoldable pub dispatches : List WsMessage → Desk → Desk
  dispatches [] d = d
  dispatches (m ∷ ms) d = dispatches ms (dispatch m d)
