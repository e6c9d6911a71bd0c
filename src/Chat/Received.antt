-- ===== src/Chat/Received.antt =====
-- crypto_orchestration.ts and useChat.ts: a text message whose session is stored, on a vault that
-- works, from the ciphertext to the store.
use ep2pchat.Base.{◌≡◌, refl, ap, ◌∙◌, String, Option, none, some, or_text, string_dec, if-same}
use ep2pchat.Base.Dict.{lookup, lookup-insert_self}
use ep2pchat.Base.Codec.{Json, Base64}
use ep2pchat.Wire.{text_fields}
use ep2pchat.Vault.Messages.{upsert_message, row_of, sql_eq}
use ep2pchat.Vault.Working.{IsWorking, put_row, put_session_row, save_message-working}
use ep2pchat.Orchestration.{LocalKeys, Ratchet, Incoming}
use ep2pchat.Orchestration.Working.{Expects, process-opened, process-rejected}
use ep2pchat.Chat.{
  Client, Structured, structured_of, show_message, shown_message, saved_message, emit,
  receive_message, receive_structured, received, incoming_with, handle_incoming_message,
}

module _ (json : Json) (b64 : Base64) (native : Ratchet) where
  open json use {Value, parse, stringify, field, member, empty, object}

  -- The plaintext of `sendMessage`.
  unfoldable pub text_of : String → Option String → Structured json b64 native
  text_of text parent = record {
    kind = "text";
    body = some text;
    parent_id = or_text parent none;
    target_id = none;
    metadata = empty;
    whole = object (text_fields text parent);
  }

  pub structured_of-text :
      (text : String) (parent : Option String)
      → structured_of json b64 native (stringify (object (text_fields text parent)))
        ≡ text_of text parent
  unfolding structured_of text_of string_dec
  structured_of-text text parent =
      let fs = text_fields text parent in
      rw
        (
          json.parse-stringify (object fs),
          json.field-object fs "type",
          json.field-object fs "body",
          json.field-object fs "parent_id",
          json.field-object fs "target_id",
          json.member-object fs "metadata",
        )
        refl

  -- The client once a text was saved, acknowledged and shown.
  abbrev pub shown_text :
      Incoming b64 native
      → String
      → String
      → Option String
      → String
      → Client json b64 native
      → Client json b64 native
  shown_text p sender text parent next c =
      show_message json b64 native sender (shown_message json b64 native p (text_of text parent)) (
        emit json b64 native "MESSAGE_ACK" p.message_id (record c {
          db =
              put_row
                (upsert_message (
                  row_of json c.db.now
                    (saved_message json b64 native p (text_of text parent) sender c.user_id)))
                (put_session_row sender next c.db);
        }))

  module _ (p : Incoming b64 native) (sender text : String) (parent : Option String) (next : String)
      (c : Client json b64 native) where
    pub shown_text-last :
        lookup sender (shown_text p sender text parent next c).last_message_by_contact
        ≡ some (some text)
    unfolding show_message emit text_of
    shown_text-last =
        if-same (sql_eq c.active_contact_id sender)
          (λ (d : Client json b64 native). lookup sender d.last_message_by_contact) _ _
          (lookup-insert_self sender (some text) c.last_message_by_contact)
          (lookup-insert_self sender (some text) c.last_message_by_contact)

    pub shown_text-session :
        lookup sender (shown_text p sender text parent next c).db.tables.ratchet_sessions
        ≡ some next
    unfolding show_message emit text_of
    shown_text-session =
        if-same (sql_eq c.active_contact_id sender)
          (λ (d : Client json b64 native). lookup sender d.db.tables.ratchet_sessions) _ _
          (lookup-insert_self sender next c.db.tables.ratchet_sessions)
          (lookup-insert_self sender next c.db.tables.ratchet_sessions)

  module _ (p : Incoming b64 native) (keys : LocalKeys) (sender session : String)
      (h : native.Header) (c : Client json b64 native) (k : c.local_keys ≡ some keys)
      (x : Expects b64 native p sender session h c.db) where
    pub text-received :
        (text next : String) (parent : Option String)
        → native.ratchet_decrypt session h p.ciphertext sender
          ≡ some (next, stringify (object (text_fields text parent)))
        → handle_incoming_message json b64 native p c ≡ shown_text p sender text parent next c
    unfolding handle_incoming_message receive_structured receive_message string_dec text_of
    text-received text next parent e =
        let d = put_session_row sender next c.db in
        let v : IsWorking d = record { opened = x.vault.opened; faults = x.vault.faults } in
        ap (λ o. incoming_with json b64 native p o c) k
        ∙ ap (received json b64 native p c)
            (process-opened b64 native p keys c.active_contact_id sender session h c.db x next _ e)
        ∙ rw (structured_of-text text parent) (
            rw
              (save_message-working d v json
                (saved_message json b64 native p (text_of text parent) sender c.user_id))
              refl)

    pub text-rejected :
        native.ratchet_decrypt session h p.ciphertext sender ≡ none
        → handle_incoming_message json b64 native p c ≡ c
    unfolding handle_incoming_message
    text-rejected e =
        ap (λ o. incoming_with json b64 native p o c) k
        ∙ ap (received json b64 native p c)
            (process-rejected b64 native p keys c.active_contact_id sender session h c.db x e)
