-- ===== src/Arena/Talk.antt =====
-- ChatArena.tsx and useChat.ts together: texts that one client sends one after another, and that the
-- other one handles.
use ep2pchat.Base.{◌≡◌, ◌≢◌, String, true, none, some, truthy, false, List, [], ◌∷◌}
use ep2pchat.Base.Dict.{lookup}
use ep2pchat.Base.Codec.{Json, Base64}
use ep2pchat.Wire.{Encrypted, message, typing}
use ep2pchat.Socket.{send}
use ep2pchat.Orchestration.{LocalKeys, Ratchet, Sealed}
use ep2pchat.Vault.Working.{IsWorking}
use ep2pchat.Chat.{Client, handle_incoming_message}
use ep2pchat.Arena.{Arena, Peer, TargetDevice}
use ep2pchat.Arena.Composer.{send_message}
use ep2pchat.Arena.Relay.{Origin, relayed}

-- What the double ratchet of the native part promises: a session encrypts any text and leaves a
-- session, which is no empty text; and what was encrypted with some associated data is decrypted
-- with no other.
pub record Sealing (native : Ratchet) : Type 1 where
  pub IsSession : String → Type 0
  pub encrypts :
      (s m conv : String)
      → IsSession s
      → (x : Sealed native.Header) × (native.ratchet_encrypt s m conv ≡ some x)
        × IsSession x.new_session_json
  pub nonempty : (s : String) → IsSession s → truthy s ≡ true
  pub binds :
      (s r m conv other : String) (x : Sealed native.Header)
      → native.ratchet_encrypt s m conv ≡ some x
      → conv ≢ other
      → native.ratchet_decrypt r x.header x.ciphertext other ≡ none

-- A text, with the dates that it is stamped with and what the server names and dates it.
pub record Post : Type 0 where
  pub text : String
  pub stamp : String
  pub iso : String
  pub message_id : String
  pub created_at : String

abbrev pub origin_of : Origin → Post → Origin
origin_of o p = record o { message_id = p.message_id; created_at = p.created_at }

module _ (json : Json) (b64 : Base64) (native : Ratchet) where
  -- The text is typed into the composer.
  abbrev pub typed_in : String → Arena json b64 native → Arena json b64 native
  typed_in text a = record a { input_text = text }

  -- A run of the two clients: each text is sent, what `sendMessage` hands to its socket is the message
  -- `m`, and the other client handles what the server makes of `m`.
  pub data Talk (device : TargetDevice) (o : Origin)
      : List Post
        → Arena json b64 native
        → Client json b64 native
        → Arena json b64 native
        → Client json b64 native
        → Type 0 where
    over : {a : Arena json b64 native} {c : Client json b64 native} → Talk device o [] a c a c
    says :
        {ps : List Post} {a b : Arena json b64 native} {c d : Client json b64 native} (p : Post)
        (m : Encrypted native.Header)
        → (send_message json b64 native p.stamp p.iso (typed_in p.text a)).client.socket
          ≡ send "TYPING_EVENT"
              (typing device.device_id false)
              (send "MESSAGE_SEND" (message m) a.client.socket)
        → Talk device o ps
            (send_message json b64 native p.stamp p.iso (typed_in p.text a))
            (handle_incoming_message json b64 native (relayed b64 native (origin_of o p) m) c)
            b
            d
        → Talk device o (p ∷ ps) a c b d

  -- The sender between two texts: its vault works, it has its keys, the conversation is open and no
  -- message is edited, and it has a session for the contact.
  pub record CanPost (sealing : Sealing native) (contact : Peer) (a : Arena json b64 native)
      : Type 0 where
    pub vault : IsWorking a.client.db
    pub chosen : a.active_contact ≡ some contact
    pub fresh : a.editing_msg ≡ none
    pub keys : LocalKeys
    pub keyed : a.client.local_keys ≡ some keys
    pub session : String
    pub stored : lookup contact.id a.client.db.tables.ratchet_sessions ≡ some session
    pub live : sealing.IsSession session

  -- The receiver: its vault works, and it has its keys and a session for the sender.
  pub record CanReceive (o : Origin) (c : Client json b64 native) : Type 0 where
    pub vault : IsWorking c.db
    pub keys : LocalKeys
    pub keyed : c.local_keys ≡ some keys
    pub named : truthy o.user_id ≡ true
    pub held : String
    pub stored : lookup o.user_id c.db.tables.ratchet_sessions ≡ some held
    pub usable : truthy held ≡ true
