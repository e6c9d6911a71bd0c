-- ===== src/App/Unseen.antt =====
-- useAppInitialization.ts: the reference of the open conversation that the handlers read is null at
-- the start, and nothing assigns it.
use ep2pchat.Base.{ℕ, ◌≡◌, refl, none, List, [], ◌∷◌, length}
use ep2pchat.Base.Codec.{Json, Base64}
use ep2pchat.Orchestration.{Ratchet}
use ep2pchat.Chat.Closed.{
  Closed, incoming_message-Closed, message_status-Closed, message_confirm-Closed,
  typing_event-Closed, story_key_share-Closed,
}
use ep2pchat.App.Dispatch.{
  WsMessage, Desk, dispatch, dispatches, message_receive, message_status, message_confirm,
  typing_event, presence_update, admission_request, story_key_share, other,
}

module _ (json : Json) (b64 : Base64) (native : Ratchet) where
  dispatch-Closed :
      (n : ℕ) (m : WsMessage json b64 native) (d : Desk json b64 native)
      → Closed json b64 native n d.client
      → Closed json b64 native n (dispatch json b64 native m d).client
  unfolding dispatch
  dispatch-Closed n (message_receive p) d k = incoming_message-Closed json b64 native n p d.client k
  dispatch-Closed n (message_status id s) d k =
      message_status-Closed json b64 native n id s d.client k
  dispatch-Closed n (message_confirm t s at) d k =
      message_confirm-Closed json b64 native n t s at d.client k
  dispatch-Closed n (typing_event s b) d k = typing_event-Closed json b64 native n s b d.client k
  dispatch-Closed n (presence_update u s) d k = k
  dispatch-Closed n (admission_request e) d k = k
  dispatch-Closed n (story_key_share p) d k = story_key_share-Closed json b64 native n p d.client k
  dispatch-Closed n other d k = k

  dispatches-Closed :
      (n : ℕ) (ms : List (WsMessage json b64 native)) (d : Desk json b64 native)
      → Closed json b64 native n d.client
      → Closed json b64 native n (dispatches json b64 native ms d).client
  unfolding dispatches
  dispatches-Closed n [] d k = k
  dispatches-Closed n (m ∷ ms) d k = dispatches-Closed n ms _ (dispatch-Closed n m d k)

  -- From the start on, where the reference is null, the messages that arrive leave the number of
  -- the shown messages as it was, whatever they are: none of them is added to the open conversation.
  pub dispatches-length :
      (ms : List (WsMessage json b64 native)) (d : Desk json b64 native)
      → d.client.active_contact_id ≡ none
      → length (dispatches json b64 native ms d).client.messages ≡ length d.client.messages
  dispatches-length ms d h =
      (dispatches-Closed (length d.client.messages) ms d
        (record { closed = h; count = refl })).count
