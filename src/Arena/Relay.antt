-- ===== src/Arena/Relay.antt =====
-- crates/backend/src/ws.rs: what the server makes of a MESSAGE_SEND, the payload of the
-- MESSAGE_RECEIVE for the recipient's device. It does not pass on `used_opk_id`.
use ep2pchat.Base.{String, some, none}
use ep2pchat.Base.Codec.{Base64}
use ep2pchat.Wire.{Encrypted}
use ep2pchat.Orchestration.{Ratchet, Incoming}

-- What the server knows of the connection and of the message it stored.
pub record Origin : Type 0 where
  pub message_id : String
  pub user_id : String
  pub device_id : String
  pub identity_key : String
  pub created_at : String

module _ (b64 : Base64) (native : Ratchet) where
  abbrev pub relayed : Origin → Encrypted native.Header → Incoming b64 native
  relayed o e = record {
    message_id = o.message_id;
    sender_user_id = some o.user_id;
    sender_device_id = o.device_id;
    sender_identity_key = some o.identity_key;
    ephemeral_public_key = e.ephemeral_public_key;
    used_opk_id = none;
    header = some e.header;
    ciphertext = e.ciphertext;
    timestamp = o.created_at;
  }
