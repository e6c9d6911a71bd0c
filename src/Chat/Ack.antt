-- ===== src/Chat/Ack.antt =====
-- useChat.ts, `handleIncomingMessage`: what it answers, and what the vault holds then.
use ep2pchat.Base.{
  ◌≡◌, refl, ap, String, Bool, true, Option, none, some, List, [], ◌∷◌, ◌++◌, arith, Bool-cases,
  inl, inr, any_if, ◌||◌,
}
use ep2pchat.Base.Exec.{Result, ok, err, bind_cases}
use ep2pchat.Base.Codec.{Json, Base64}
use ep2pchat.Socket.{Socket, send}
use ep2pchat.Wire.{Outgoing, message_id}
use ep2pchat.Vault.Db.{Tables, Db, MessageRow, EventRow, execute, init_vault}
use ep2pchat.Vault.Messages.{
  str_eq, sql_eq, NewMessage, upsert_message, row_of, save_message, with_messages,
}
use ep2pchat.Vault.History.{Shown, NewEvent, insert_event, event_row, save_message_event}
use ep2pchat.Orchestration.{Ratchet, Incoming, LocalKeys, Decrypted, process_incoming_message}
use ep2pchat.Chat.{
  Client, Structured, structured_of, emit, show_message, show_event, shown_message, saved_message,
  saved_event, acknowledged, received, incoming_with, receive_message, receive_event,
  receive_structured, handle_incoming_message,
}

-- A message or an event of the vault has the id.
abbrev pub holds : String → Tables → Bool
holds id t =
    any_if (λ (m : MessageRow). str_eq m.id id) t.messages
    || any_if (λ (e : EventRow). str_eq e.id id) t.message_events

-- An operation that returns has stored the id.
abbrev Stores : String → Result (Unit {0}) × Db → Type 0
Stores id (ok u, d) = holds id d.tables ≡ true
Stores id (err x, d) = Unit

upsert_message-id :
    (r : MessageRow) (ms : List MessageRow)
    → any_if (λ (m : MessageRow). str_eq m.id r.id) (upsert_message r ms) ≡ true
unfolding upsert_message
upsert_message-id r [] = ground arith
upsert_message-id r (m ∷ ms) = ground (arith, upsert_message-id r ms)

append-id :
    (e : EventRow) (es : List EventRow)
    → any_if (λ (f : EventRow). str_eq f.id e.id) (es ++ e ∷ []) ≡ true
append-id e [] = ground arith
append-id e (f ∷ es) = ground (arith, append-id e es)

upsert-Stores :
    (r : MessageRow) (d : Db) → Stores r.id (execute (with_messages (upsert_message r)) d)
unfolding execute
upsert-Stores r d = ground (arith, upsert_message-id r d.tables.messages)

event-Stores : (r : EventRow) (d : Db) → Stores r.id (execute (insert_event r) d)
unfolding execute insert_event
event-Stores r d = ground (arith, append-id r d.tables.message_events)

module _ (json : Json) (b64 : Base64) (native : Ratchet) where
  save_message-Stores : (m : NewMessage json) (d : Db) → Stores m.id (save_message json m d)
  unfolding save_message row_of
  save_message-Stores m d =
      bind_cases (Stores m.id) init_vault
        (λ _. execute (with_messages (upsert_message (row_of json d.now m)))) d (λ _ _ _. tt)
        (λ _ e _. upsert-Stores (row_of json d.now m) e)

  save_message_event-Stores :
      (ev : NewEvent json) (d : Db) → Stores ev.id (save_message_event json ev d)
  unfolding save_message_event
  save_message_event-Stores ev d =
      bind_cases (Stores ev.id) init_vault (λ _. execute (insert_event (event_row json d.now ev))) d
        (λ _ _ _. tt) (λ _ e _. event-Stores (event_row json d.now ev) e)

  -- What is sent for a message with the id: nothing, or the answers, once the vault holds the id.
  pub data Answer (id : String) (s : Socket (Outgoing native.Header)) (r : Client json b64 native)
      : Type 0 where
    silent : r.socket ≡ s → Answer id s r
    acked :
        holds id r.db.tables ≡ true
        → r.socket ≡ send "MESSAGE_ACK" (message_id id) s
        → Answer id s r
    read :
        holds id r.db.tables ≡ true
        → r.socket ≡ send "MESSAGE_READ" (message_id id) (send "MESSAGE_ACK" (message_id id) s)
        → Answer id s r

  show_message-Answer :
      (conversation id : String) (m : Shown json.Value) (s : Socket (Outgoing native.Header))
      (c : Client json b64 native)
      → m.id ≡ id
      → holds id c.db.tables ≡ true
      → c.socket ≡ send "MESSAGE_ACK" (message_id id) s
      → Answer id s (show_message json b64 native conversation m c)
  unfolding show_message emit
  show_message-Answer conversation id m s c e h a =
      elim (Bool-cases (sql_eq c.active_contact_id conversation)) [
        | inl t ↦ rw t (read h (rw (e, a) refl))
        | inr f ↦ rw f (acked h a)
      ]

  show_event-Answer :
      (conversation id : String) (st : Structured json b64 native)
      (s : Socket (Outgoing native.Header)) (c : Client json b64 native)
      → holds id c.db.tables ≡ true
      → c.socket ≡ send "MESSAGE_ACK" (message_id id) s
      → Answer id s (show_event json b64 native conversation st c)
  unfolding show_event
  show_event-Answer conversation id st s c h a =
      elim (Bool-cases (sql_eq c.active_contact_id conversation)) [
        | inl t ↦ rw t (acked h a)
        | inr f ↦ rw f (acked h a)
      ]

  module _ (id : String) (s : Socket (Outgoing native.Header)) where
    acknowledged-Answer :
        (rest : Client json b64 native → Client json b64 native) (c : Client json b64 native)
        (r : Result (Unit {0}) × Db)
        → Stores id r
        → c.socket ≡ s
        → ((d : Client json b64 native)
            → holds id d.db.tables ≡ true
            → d.socket ≡ send "MESSAGE_ACK" (message_id id) s
            → Answer id s (rest d))
        → Answer id s (acknowledged json b64 native id rest c r)
    unfolding emit
    acknowledged-Answer rest c (ok tt, d) h e k =
        k (emit json b64 native "MESSAGE_ACK" id (record c { db = d })) h
          (ap (send "MESSAGE_ACK" (message_id id)) e)
    acknowledged-Answer rest c (err x, d) h e k = silent e

  module _ (p : Incoming b64 native) where
    receive_structured-Answer :
        (st : Structured json b64 native) (conversation : String)
        (s : Socket (Outgoing native.Header)) (c : Client json b64 native)
        → c.socket ≡ s
        → Answer p.message_id s (receive_structured json b64 native p st conversation c)
    unfolding receive_structured receive_message receive_event
    receive_structured-Answer st conversation s c e =
        elim (Bool-cases (str_eq st.kind "text" || str_eq st.kind "reply")) [
          | inl t ↦ rw t (
              acknowledged-Answer p.message_id s _ c _
                (save_message-Stores (saved_message json b64 native p st conversation c.user_id)
                  c.db)
                e
                (λ d h a.
                  show_message-Answer conversation p.message_id (shown_message json b64 native p st)
                    s d refl h a))
          | inr f ↦ rw f (
              acknowledged-Answer p.message_id s _ c _
                (save_message_event-Stores (saved_event json b64 native p st) c.db) e
                (λ d h a. show_event-Answer conversation p.message_id st s d h a))
        ]

    received-Answer :
        (c : Client json b64 native) (r : Result (Option (Decrypted b64 native)) × Db)
        → Answer p.message_id c.socket (received json b64 native p c r)
    received-Answer c (ok none, d) = silent refl
    received-Answer c (ok (some r), d) =
        receive_structured-Answer (structured_of json b64 native r.plaintext) r.conversation_id
          c.socket (record c { db = d }) refl
    received-Answer c (err x, d) = silent refl

    incoming-Answer :
        (o : Option LocalKeys) (c : Client json b64 native)
        → Answer p.message_id c.socket (incoming_with json b64 native p o c)
    incoming-Answer none c = silent refl
    incoming-Answer (some keys) c =
        received-Answer c (process_incoming_message b64 native p keys c.active_contact_id c.db)

    -- A message that arrives is answered only once the vault holds it: either nothing is sent, or a
    -- row of the vault has its id and the answer is MESSAGE_ACK, or MESSAGE_ACK and then
    -- MESSAGE_READ.
    pub incoming_message-Answer :
        (c : Client json b64 native)
        → Answer p.message_id c.socket (handle_incoming_message json b64 native p c)
    unfolding handle_incoming_message
    incoming_message-Answer c = incoming-Answer c.local_keys c
