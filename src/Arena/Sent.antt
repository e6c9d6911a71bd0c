-- ===== src/Arena/Sent.antt =====
-- ChatArena.tsx, `sendMessage`: what it leaves behind where nothing fails.
use ep2pchat.Base.{
  ◌≡◌, refl, ap, ◌∙◌, String, true, false, Option, none, some, head?, truthy, text_append, is_blank,
  if-false,
}
use ep2pchat.Base.Dict.{lookup}
use ep2pchat.Base.Exec.{ok}
use ep2pchat.Base.Codec.{Json, Base64}
use ep2pchat.Wire.{message, typing}
use ep2pchat.Vault.Db.{Db}
use ep2pchat.Vault.Messages.{upsert_message, row_of}
use ep2pchat.Vault.Working.{
  IsWorking, put_row, put_session_row, get_ratchet_session-working, save_ratchet_session-working,
  save_message-working,
}
use ep2pchat.Orchestration.{LocalKeys, Ratchet, Sealed}
use ep2pchat.Arena.{
  Arena, Peer, TargetDevice, sender_session, deliver, send_new, send_at, send_with, send_text,
  encrypted, key_id_of, sent_row, my_message, text_payload, socket_send, with_db, composed,
  reply_id,
}
use ep2pchat.Arena.Composer.{compose_to, send_message}

module _ (json : Json) (b64 : Base64) (native : Ratchet) (contact : Peer) (device : TargetDevice)
    (id iso text : String) (parent : Option String) (r : Sealed native.Header) where
  -- The vault with the session and the row of the message.
  abbrev pub saved_db : Db → Db
  saved_db d =
      put_row
        (upsert_message
          (row_of json d.now (sent_row json b64 native id text parent contact.id iso)))
        (put_session_row contact.id r.new_session_json d)

  -- The vault is written, then the message is sent, then the composer is cleared.
  abbrev pub delivered : Arena json b64 native → Arena json b64 native
  delivered a = socket_send json b64 native "TYPING_EVENT" (typing device.device_id false) (
      composed json b64 native contact.id (my_message json b64 native id text parent iso) (
        socket_send json b64 native "MESSAGE_SEND"
          (message (encrypted json b64 native id device none (key_id_of device.one_time_pre_key) r))
          (with_db json b64 native (saved_db a.client.db) a)))

  deliver-working :
      (a : Arena json b64 native)
      → IsWorking a.client.db
      → deliver json b64 native contact device id iso text parent none r a ≡ (ok tt, delivered a)
  unfolding deliver
  deliver-working a w =
      let d = put_session_row contact.id r.new_session_json a.client.db in
      let v : IsWorking d = record { opened = w.opened; faults = w.faults } in
      rw (save_ratchet_session-working a.client.db w contact.id r.new_session_json) (
        rw (save_message-working d v json (sent_row json b64 native id text parent contact.id iso))
          refl)

  send_new-working :
      (keys : LocalKeys) (session : String) (a : Arena json b64 native)
      → IsWorking a.client.db
      → truthy session ≡ true
      → lookup contact.id a.client.db.tables.ratchet_sessions ≡ some session
      → native.ratchet_encrypt session
          (json.stringify (text_payload json b64 native text parent))
          contact.id
        ≡ some r
      → send_new json b64 native contact device keys id iso text parent a ≡ (ok tt, delivered a)
  unfolding send_new sender_session
  send_new-working keys session a w t l e =
      rw (get_ratchet_session-working a.client.db w contact.id)
        (rw l (rw t (rw e (deliver-working a w))))

-- What `sendMessage` needs to succeed with a session that is stored.
module _ (json : Json) (b64 : Base64) (native : Ratchet) where
  pub record CanSend (contact : Peer) (device : TargetDevice) (session : String)
      (r : Sealed native.Header) (a : Arena json b64 native) : Type 0 where
    pub vault : IsWorking a.client.db
    pub chosen : a.active_contact ≡ some contact
    pub fresh : a.editing_msg ≡ none
    pub written : is_blank a.input_text ≡ false
    pub keyed : (keys : LocalKeys) × (a.client.local_keys ≡ some keys)
    pub aimed : head? contact.devices ≡ some device
    pub stored : lookup contact.id a.client.db.tables.ratchet_sessions ≡ some session
    pub usable : truthy session ≡ true
    pub sealed :
        native.ratchet_encrypt session
          (json.stringify
            (text_payload json b64 native a.input_text (reply_id json b64 native a.reply_to)))
          contact.id
        ≡ some r

  -- Where all of that holds, `sendMessage` stores the advanced session and the message, then hands
  -- the ciphertext to the socket, and clears the composer.
  pub send_message-delivered :
      (contact : Peer) (device : TargetDevice) (session stamp iso : String)
      (r : Sealed native.Header) (a : Arena json b64 native)
      → CanSend contact device session r a
      → send_message json b64 native stamp iso a
        ≡ delivered json b64 native contact device
            (text_append "msg-" stamp)
            iso
            a.input_text
            (reply_id json b64 native a.reply_to)
            r
            a
  unfolding send_message send_text
  send_message-delivered contact device session stamp iso r a c =
      let keys = c.keyed.0 in
      let sent =
        send_new-working json b64 native contact device (text_append "msg-" stamp) iso a.input_text
          (reply_id json b64 native a.reply_to) r keys session a c.vault c.usable c.stored
          c.sealed in
      if-false (is_blank a.input_text) a _ c.written
      ∙ ap (λ o. compose_to json b64 native o a.editing_msg stamp iso a) c.chosen
      ∙ ap (λ o. compose_to json b64 native (some contact) o stamp iso a) c.fresh
      ∙ ap (λ o. send_with json b64 native o contact stamp iso a) c.keyed.1
      ∙ ap (λ o. send_at json b64 native o contact keys stamp iso a) c.aimed
      ∙ rw (sent, send_at) refl
