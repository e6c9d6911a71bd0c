-- ===== src/Arena/Exchange.antt =====
-- ChatArena.tsx and useChat.ts together: one text, which is sent and then dropped.
use ep2pchat.Base.{◌≡◌, ◌≢◌, refl, String, text_append, false, none, Option, some, is_blank, head?}
use ep2pchat.Base.Dict.{lookup-insert_self}
use ep2pchat.Base.Codec.{Json, Base64}
use ep2pchat.Wire.{Encrypted}
use ep2pchat.Orchestration.{Ratchet, Sealed, Incoming}
use ep2pchat.Orchestration.Working.{Expects}
use ep2pchat.Chat.{Client, handle_incoming_message}
use ep2pchat.Chat.Received.{text-rejected}
use ep2pchat.Arena.{Arena, Peer, TargetDevice, encrypted, key_id_of, reply_id, text_payload}
use ep2pchat.Arena.Sent.{delivered, send_message-delivered}
use ep2pchat.Arena.Composer.{send_message}
use ep2pchat.Arena.Relay.{Origin, relayed}
use ep2pchat.Arena.Talk.{Sealing, Post, origin_of, typed_in, CanPost, CanReceive}

module _ (json : Json) (b64 : Base64) (native : Ratchet) (sealing : Sealing native) (contact : Peer)
    (device : TargetDevice) (p : Post) (a : Arena json b64 native)
    (aimed : head? contact.devices ≡ some device) (written : is_blank p.text ≡ false)
    (l : CanPost json b64 native sealing contact a) where
  pub parent : Option String
  parent = reply_id json b64 native a.reply_to

  pub encryption :
      (x : Sealed native.Header) × (native.ratchet_encrypt l.session
          (json.stringify (text_payload json b64 native p.text parent))
          contact.id
        ≡ some x)
      × sealing.IsSession x.new_session_json
  encryption = sealing.encrypts l.session _ contact.id l.live

  abbrev pub posted : Encrypted native.Header
  posted =
      encrypted json b64 native (text_append "msg-" p.stamp) device none
        (key_id_of device.one_time_pre_key) encryption.0

  -- The sender after the text.
  abbrev pub sender : Arena json b64 native
  sender =
      delivered json b64 native contact device (text_append "msg-" p.stamp) p.iso p.text parent
        encryption.0 (typed_in json b64 native p.text a)

  pub sent : send_message json b64 native p.stamp p.iso (typed_in json b64 native p.text a) ≡ sender
  unfolding parent
  sent =
      send_message-delivered json b64 native contact device l.session p.stamp p.iso encryption.0
        (typed_in json b64 native p.text a)
        (record {
          vault = l.vault;
          chosen = l.chosen;
          fresh = l.fresh;
          written = written;
          keyed = (l.keys, l.keyed);
          aimed = aimed;
          stored = l.stored;
          usable = sealing.nonempty l.session l.live;
          sealed = encryption.1;
        })

  pub sender-CanPost : CanPost json b64 native sealing contact sender
  sender-CanPost = record {
    vault = record { opened = l.vault.opened; faults = l.vault.faults };
    chosen = l.chosen;
    fresh = l.fresh;
    keys = l.keys;
    keyed = l.keyed;
    session = encryption.0.new_session_json;
    stored =
        lookup-insert_self contact.id encryption.0.new_session_json
          a.client.db.tables.ratchet_sessions;
    live = encryption.2;
  }

  -- What the server makes of the message, where the contact is not the sender.
  pub dropped :
      (o : Origin) (c : Client json b64 native)
      → contact.id ≢ o.user_id
      → CanReceive json b64 native o c
      → handle_incoming_message json b64 native (relayed b64 native (origin_of o p) posted) c ≡ c
  dropped o c differs r =
      let arriving : Incoming b64 native = relayed b64 native (origin_of o p) posted in
      let expects : Expects b64 native arriving o.user_id r.held encryption.0.header c.db = record {
        vault = r.vault;
        sent_by = refl;
        named = r.named;
        stored = r.stored;
        usable = r.usable;
        headed = refl;
      } in
      text-rejected json b64 native arriving r.keys o.user_id r.held encryption.0.header c r.keyed
        expects
        (sealing.binds l.session r.held _ contact.id o.user_id encryption.0 encryption.1 differs)
