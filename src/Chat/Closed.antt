-- ===== src/Chat/Closed.antt =====
-- useChat.ts: the handlers while the reference of the open conversation is null.
use ep2pchat.Base.{
  ℕ, ◌≡◌, refl, ap, ◌∙◌, String, Bool, false, Option, none, some, List, [], ◌∷◌, map, length,
  if-both, arith, truthy, ◌&&◌, ◌||◌,
}
use ep2pchat.Base.Exec.{Result, ok, err}
use ep2pchat.Base.Codec.{Json, Base64}
use ep2pchat.Vault.Db.{Db}
use ep2pchat.Vault.Messages.{str_eq, sql_eq, save_message}
use ep2pchat.Vault.History.{Shown, save_message_event}
use ep2pchat.Orchestration.{LocalKeys, Ratchet, Incoming, Decrypted, process_incoming_message}
use ep2pchat.Chat.{
  Client, Structured, show_message, shown_message, saved_message, saved_event, acknowledged, emit,
  receive_message, receive_event, show_event, receive_structured, received, incoming_with,
  handle_incoming_message,
}
use ep2pchat.Chat.Reports.{
  handle_message_status, handle_message_confirm, confirm_with, handle_typing_event,
  handle_story_key_share, shared_story, story_with, keyed_story,
}

length-map : {A B : Type 0} (f : A → B) (xs : List A) → length (map f xs) ≡ length xs
length-map f [] = refl
length-map f (x ∷ xs) = omega (arith, length-map f xs)

module _ (json : Json) (b64 : Base64) (native : Ratchet) where
  -- No conversation is open, and that many messages are shown.
  pub record Closed (n : ℕ) (c : Client json b64 native) : Type 0 where
    pub closed : c.active_contact_id ≡ none
    pub count : length c.messages ≡ n

  module _ (n : ℕ) where
    not_open :
        (conversation : String) (c : Client json b64 native)
        → c.active_contact_id ≡ none
        → sql_eq c.active_contact_id conversation ≡ false
    not_open conversation c h = ap (λ o. sql_eq o conversation) h

    show_message-Closed :
        (conversation : String) (m : Shown json.Value) (c : Client json b64 native)
        → Closed n c
        → Closed n (show_message json b64 native conversation m c)
    unfolding show_message
    show_message-Closed conversation m c k =
        if-both (Closed n) (sql_eq c.active_contact_id conversation) _ _
          (λ e. absurd (cc (e, not_open conversation c k.closed)))
          (record { closed = k.closed; count = k.count })

    show_event-Closed :
        (conversation : String) (s : Structured json b64 native) (c : Client json b64 native)
        → Closed n c
        → Closed n (show_event json b64 native conversation s c)
    unfolding show_event
    show_event-Closed conversation s c k =
        if-both (Closed n) (sql_eq c.active_contact_id conversation) _ _
          (λ e. absurd (cc (e, not_open conversation c k.closed))) k

    acknowledged-Closed :
        (id : String) (rest : Client json b64 native → Client json b64 native)
        (c : Client json b64 native) (r : Result (Unit {0}) × Db)
        → ((d : Client json b64 native) → Closed n d → Closed n (rest d))
        → Closed n c
        → Closed n (acknowledged json b64 native id rest c r)
    unfolding emit
    acknowledged-Closed id rest c (ok _, d) h k =
        h _ (record { closed = k.closed; count = k.count })
    acknowledged-Closed id rest c (err x, d) h k = record { closed = k.closed; count = k.count }

    receive_structured-Closed :
        (p : Incoming b64 native) (s : Structured json b64 native) (conversation : String)
        (c : Client json b64 native)
        → Closed n c
        → Closed n (receive_structured json b64 native p s conversation c)
    unfolding receive_structured receive_message receive_event
    receive_structured-Closed p s conversation c k =
        if-both (Closed n) (str_eq s.kind "text" || str_eq s.kind "reply") _ _
          (λ _.
            acknowledged-Closed p.message_id _ c
              (save_message json (saved_message json b64 native p s conversation c.user_id) c.db)
              (show_message-Closed conversation (shown_message json b64 native p s)) k)
          (acknowledged-Closed p.message_id _ c
            (save_message_event json (saved_event json b64 native p s) c.db)
            (show_event-Closed conversation s) k)

    received-Closed :
        (p : Incoming b64 native) (c : Client json b64 native)
        (r : Result (Option (Decrypted b64 native)) × Db)
        → Closed n c
        → Closed n (received json b64 native p c r)
    received-Closed p c (ok (some r), d) k =
        receive_structured-Closed p _ _ (record c { db = d })
          (record { closed = k.closed; count = k.count })
    received-Closed p c (ok none, d) k = record { closed = k.closed; count = k.count }
    received-Closed p c (err x, d) k = record { closed = k.closed; count = k.count }

    incoming_with-Closed :
        (p : Incoming b64 native) (o : Option LocalKeys) (c : Client json b64 native)
        → Closed n c
        → Closed n (incoming_with json b64 native p o c)
    incoming_with-Closed p none c k = k
    incoming_with-Closed p (some keys) c k =
        received-Closed p c (process_incoming_message b64 native p keys c.active_contact_id c.db) k

    pub incoming_message-Closed :
        (p : Incoming b64 native) (c : Client json b64 native)
        → Closed n c
        → Closed n (handle_incoming_message json b64 native p c)
    unfolding handle_incoming_message
    incoming_message-Closed p c k = incoming_with-Closed p c.local_keys c k

    pub message_status-Closed :
        (id status : String) (c : Client json b64 native)
        → Closed n c
        → Closed n (handle_message_status json b64 native id status c)
    unfolding handle_message_status
    message_status-Closed id status c k = record {
      closed = k.closed;
      count = length-map _ c.messages ∙ k.count;
    }

    confirm_with-Closed :
        (temp server at : Option String) (c : Client json b64 native)
        → Closed n c
        → Closed n (confirm_with json b64 native temp server at c)
    confirm_with-Closed none server at c k = k
    confirm_with-Closed (some temp) none at c k = k
    confirm_with-Closed (some temp) (some server) at c k =
        if-both (Closed n) (truthy temp && truthy server) _ _
          (λ _. record { closed = k.closed; count = length-map _ c.messages ∙ k.count }) k

    pub message_confirm-Closed :
        (temp server at : Option String) (c : Client json b64 native)
        → Closed n c
        → Closed n (handle_message_confirm json b64 native temp server at c)
    unfolding handle_message_confirm
    message_confirm-Closed temp server at c k = confirm_with-Closed temp server at c k

    pub typing_event-Closed :
        (sender : Option String) (is_typing : Bool) (c : Client json b64 native)
        → Closed n c
        → Closed n (handle_typing_event json b64 native sender is_typing c)
    unfolding handle_typing_event
    typing_event-Closed none is_typing c k = k
    typing_event-Closed (some sender) is_typing c k =
        if-both (Closed n) (truthy sender) _ _ (λ _. record { closed = k.closed; count = k.count })
          k

    keyed_story-Closed :
        (sender : String) (c : Client json b64 native) (o : Option json.Value)
        → Closed n c
        → Closed n (keyed_story json b64 native sender c o)
    keyed_story-Closed sender c none k = k
    keyed_story-Closed sender c (some v) k =
        if-both (Closed n) (sql_eq (json.field v "type") "STORY_KEY") _ _
          (λ _. record { closed = k.closed; count = k.count }) k

    shared_story-Closed :
        (p : Incoming b64 native) (c : Client json b64 native)
        (r : Result (Option (Decrypted b64 native)) × Db)
        → Closed n c
        → Closed n (shared_story json b64 native p c r)
    shared_story-Closed p c (ok (some r), d) k =
        keyed_story-Closed _ (record c { db = d }) _ (record { closed = k.closed; count = k.count })
    shared_story-Closed p c (ok none, d) k = record { closed = k.closed; count = k.count }
    shared_story-Closed p c (err x, d) k = record { closed = k.closed; count = k.count }

    story_with-Closed :
        (p : Incoming b64 native) (o : Option LocalKeys) (c : Client json b64 native)
        → Closed n c
        → Closed n (story_with json b64 native p o c)
    story_with-Closed p none c k = k
    story_with-Closed p (some keys) c k =
        shared_story-Closed p c (process_incoming_message b64 native p keys p.sender_user_id c.db) k

    pub story_key_share-Closed :
        (p : Incoming b64 native) (c : Client json b64 native)
        → Closed n c
        → Closed n (handle_story_key_share json b64 native p c)
    unfolding handle_story_key_share
    story_key_share-Closed p c k = story_with-Closed p c.local_keys c k
