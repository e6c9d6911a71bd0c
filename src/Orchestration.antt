-- ===== src/Orchestration.antt =====
-- apps/desktop/src/infrastructure/crypto_orchestration.ts: `processIncomingMessage`. The calls for
-- one conversation wait for one another there, so that each is one step here; `invoke` runs the
-- commands of `Ratchet` in the native part of the application.
pub mod Released
pub mod Working
pub mod Queue
use ep2pchat.Base.{
  ◌≡◌, ite, String, Bool, true, false, Option, none, some, List, ℕ, string_dec, if◌then◌else◌,
  or_text, or_else, truthy, truthy?, text_append, ◌&&◌,
}
use ep2pchat.Base.Exec.{Result, ok, err, Exec, pure, throw, catch, ◌>>=◌, ◌>>◌}
use ep2pchat.Base.Codec.{Base64}
use ep2pchat.Vault.Db.{Db}
use ep2pchat.Vault.Keyed.{get_ratchet_session, save_ratchet_session}
use ep2pchat.Vault.Otpk.{consume_otpk_private_key}

pub record LocalKeys : Type 0 where
  pub identity_secret : String
  pub signed_pre_key_public : String
  pub signed_pre_key_secret : String

-- What `ratchet_encrypt` returns.
pub record Sealed (H : Type 0) : Type 0 where
  pub new_session_json : String
  pub header : H
  pub ciphertext : String

-- The Tauri commands that crypto.ts wraps; `none` is a rejected promise.
pub record Ratchet : Type 1 where
  pub Header : Type 0
  pub bob_x3dh : String → String → Option String → String → String → Option String
  pub ratchet_init_receiver : String → String → String → Option String
  pub alice_x3dh : String → String → String → Option String → Option (String × String)
  pub ratchet_init_sender : String → String → Option String
  pub ratchet_encrypt : String → String → String → Option (Sealed Header)
  pub ratchet_decrypt : String → Header → String → String → Option (String × String)

module _ (b64 : Base64) (native : Ratchet) where
  open native use {Header, bob_x3dh, ratchet_init_receiver, ratchet_decrypt}

  pub record Incoming : Type 0 where
    pub message_id : String
    pub sender_user_id : Option String
    pub sender_device_id : String
    pub sender_identity_key : Option String
    pub ephemeral_public_key : Option String
    pub used_opk_id : Option String
    pub header : Option Header
    pub ciphertext : String
    pub timestamp : String

  pub record Decrypted : Type 0 where
    pub conversation_id : String
    pub plaintext : String
    pub new_session_json : String

  -- `await invoke(…)`
  abbrev pub invoked : {A : Type 0} → Option A → Exec Db A
  invoked none = throw "command failed"
  invoked (some a) = pure a

  abbrev or_consumed : String → Option (List ℕ) → Exec Db (List ℕ)
  or_consumed id none =
      throw (text_append "OPK " (text_append id " already consumed or not found."))
  or_consumed id (some bytes) = pure bytes

  take_opk : Option String → Exec Db (Option String)
  take_opk none = pure none
  take_opk (some id) =
      if truthy id
      then (do
        found ← consume_otpk_private_key b64 id
        bytes ← or_consumed id found
        text ← invoked (b64.encode bytes)
        pure (some text))
      else pure none

  -- The X3DH handshake of a first message.
  pub handshake : Incoming → LocalKeys → Exec Db String
  unfolding take_opk
  handshake payload keys = do
    opk ← take_opk payload.used_opk_id
    shared ← invoked (
        bob_x3dh keys.identity_secret keys.signed_pre_key_secret opk
          (or_else payload.sender_identity_key "") (or_else payload.ephemeral_public_key ""))
    invoked (ratchet_init_receiver shared keys.signed_pre_key_public keys.signed_pre_key_secret)

  -- The stored session or a new one; `none` where a message without session lacks the X3DH fields.
  unfoldable pub session_for : Option String → Incoming → LocalKeys → Exec Db (Option String)
  session_for stored payload keys =
      if truthy? stored
      then pure stored
      else if truthy? payload.ephemeral_public_key && truthy? payload.sender_identity_key
      then (do session ← handshake payload keys; pure (some session))
      else pure none

  abbrev save_or_stop : String → String → Exec Db (Unit {0})
  save_or_stop conversation_id session =
      catch (save_ratchet_session conversation_id session)
        (λ e. throw (text_append "Failed to save ratchet session: " e))

  unfoldable pub decrypt_with :
      String → Incoming → Option String → Option Header → Exec Db (Option Decrypted)
  decrypt_with conversation_id payload none h = pure none
  decrypt_with conversation_id payload (some session) none = pure none
  decrypt_with conversation_id payload (some session) (some h) = do
    result ← invoked (ratchet_decrypt session h payload.ciphertext conversation_id)
    save_or_stop conversation_id result.0
    pure (
        some (record {
          conversation_id = conversation_id;
          plaintext = result.1;
          new_session_json = result.0;
        }))

  -- The step that is queued for a conversation, before its `catch`.
  unfoldable pub process_step : String → Incoming → LocalKeys → Exec Db (Option Decrypted)
  process_step conversation_id payload keys = do
    stored ← catch (get_ratchet_session conversation_id) (λ _. pure none)
    session ← session_for stored payload keys
    decrypt_with conversation_id payload session payload.header

  unfoldable pub process_for : Option String → Incoming → LocalKeys → Exec Db (Option Decrypted)
  process_for none payload keys = pure none
  process_for (some id) payload keys =
      if truthy id then catch (process_step id payload keys) (λ _. pure none) else pure none

  -- `payload.sender_user_id || activeContactId` is the conversation.
  unfoldable pub process_incoming_message :
      Incoming → LocalKeys → Option String → Exec Db (Option Decrypted)
  unfolding process_for
  process_incoming_message payload keys active_contact_id =
      process_for (or_text payload.sender_user_id active_contact_id) payload keys
