-- ===== src/Commands/Calls.antt =====
-- The calls of `invoke`, those of infrastructure/crypto.ts and of its other callers.
use ep2pchat.Base.{String, Option, List, [], ◌∷◌}
use ep2pchat.Commands.{Arg, Invocation, opt, text, header}
use ep2pchat.Commands.Crypto.{
  generate_keys, alice_encrypt, bob_decrypt, alice_x3dh, bob_x3dh, ratchet_init_sender,
  ratchet_init_receiver, ratchet_encrypt, ratchet_decrypt,
}

module _ {H : Type 0} where
  abbrev pub get_vault_key : Invocation H
  get_vault_key = record { command = "get_or_create_vault_key"; arguments = [] }

  abbrev pub clear_session : Invocation H
  clear_session = record { command = "clear_vault_session"; arguments = [] }

  abbrev pub set_session_jwt : String → Invocation H
  set_session_jwt token = record {
    command = "set_session_jwt";
    arguments = ("jwt", text token) ∷ [];
  }

  abbrev pub sign_login_challenge : String → String → Invocation H
  sign_login_challenge identity_secret challenge = record {
    command = "sign_login_challenge";
    arguments = ("identitySecretB64", text identity_secret) ∷ ("challengeB64", text challenge) ∷ [];
  }

  abbrev pub check_otpks : Invocation H
  check_otpks = record { command = "check_and_replenish_otpks"; arguments = [] }

  abbrev pub story_encrypt : String → String → Invocation H
  story_encrypt story_text story_key = record {
    command = "story_encrypt";
    arguments = ("plaintext", text story_text) ∷ ("keyB64", text story_key) ∷ [];
  }

  abbrev pub story_decrypt : String → String → String → Invocation H
  story_decrypt ciphertext story_key nonce = record {
    command = "story_decrypt";
    arguments =
        ("ciphertextB64", text ciphertext)
        ∷ ("keyB64", text story_key)
        ∷ ("nonceB64", text nonce)
        ∷ [];
  }

  -- The share of a story's key, which names no conversation.
  abbrev pub share_encrypt : String → String → String → Invocation H
  share_encrypt session_json plaintext contact_id = record {
    command = "ratchet_encrypt";
    arguments =
        ("sessionJson", text session_json)
        ∷ ("plaintext", text plaintext)
        ∷ ("associatedData", text contact_id)
        ∷ [];
  }

  -- A call of the program, and the values that it names, in the order in which it names them.
  pub data Issues : Invocation H → List (Arg H) → Type 0 where
    issues_generate_keys : Issues generate_keys ([])
    issues_alice_encrypt :
        (alice_ik_sk : String) (bob_ik_pk : String) (bob_spk_pk : String)
        (bob_opk_pk : Option String) (message : String)
        → Issues (alice_encrypt alice_ik_sk bob_ik_pk bob_spk_pk bob_opk_pk message) (
            text alice_ik_sk
            ∷ text bob_ik_pk
            ∷ text bob_spk_pk
            ∷ opt bob_opk_pk
            ∷ text message
            ∷ [])
    issues_bob_decrypt :
        (bob_ik_sk : String) (bob_spk_sk : String) (bob_opk_sk : Option String)
        (alice_ik_pk : String) (alice_ek_pk : String) (ciphertext : String) (nonce : String)
        → Issues
            (bob_decrypt bob_ik_sk bob_spk_sk bob_opk_sk alice_ik_pk alice_ek_pk ciphertext nonce)
            (text bob_ik_sk
              ∷ text bob_spk_sk
              ∷ opt bob_opk_sk
              ∷ text alice_ik_pk
              ∷ text alice_ek_pk
              ∷ text ciphertext
              ∷ text nonce
              ∷ [])
    issues_alice_x3dh :
        (alice_ik_sk : String) (bob_ik_pk : String) (bob_spk_pk : String)
        (bob_opk_pk : Option String)
        → Issues
            (alice_x3dh alice_ik_sk bob_ik_pk bob_spk_pk bob_opk_pk)
            (text alice_ik_sk ∷ text bob_ik_pk ∷ text bob_spk_pk ∷ opt bob_opk_pk ∷ [])
    issues_bob_x3dh :
        (bob_ik_sk : String) (bob_spk_sk : String) (bob_opk_sk : Option String)
        (alice_ik_pk : String) (alice_ek_pk : String)
        → Issues (bob_x3dh bob_ik_sk bob_spk_sk bob_opk_sk alice_ik_pk alice_ek_pk) (
            text bob_ik_sk
            ∷ text bob_spk_sk
            ∷ opt bob_opk_sk
            ∷ text alice_ik_pk
            ∷ text alice_ek_pk
            ∷ [])
    issues_ratchet_init_sender :
        (shared_secret : String) (bob_spk_public : String)
        → Issues
            (ratchet_init_sender shared_secret bob_spk_public)
            (text shared_secret ∷ text bob_spk_public ∷ [])
    issues_ratchet_init_receiver :
        (shared_secret : String) (bob_spk_public : String) (bob_spk_private : String)
        → Issues
            (ratchet_init_receiver shared_secret bob_spk_public bob_spk_private)
            (text shared_secret ∷ text bob_spk_public ∷ text bob_spk_private ∷ [])
    issues_ratchet_encrypt :
        (session_json : String) (plaintext : String) (conv_id : String)
        → Issues
            (ratchet_encrypt session_json plaintext conv_id)
            (text session_json ∷ text plaintext ∷ text conv_id ∷ [])
    issues_ratchet_decrypt :
        (session_json : String) (head : H) (ciphertext : String) (conv_id : String)
        → Issues
            (ratchet_decrypt session_json head ciphertext conv_id)
            (text session_json ∷ header head ∷ text ciphertext ∷ text conv_id ∷ [])
    issues_get_vault_key : Issues get_vault_key ([])
    issues_clear_session : Issues clear_session ([])
    issues_set_session_jwt : (token : String) → Issues (set_session_jwt token) (text token ∷ [])
    issues_sign_login_challenge :
        (identity_secret : String) (challenge : String)
        → Issues
            (sign_login_challenge identity_secret challenge)
            (text identity_secret ∷ text challenge ∷ [])
    issues_check_otpks : Issues check_otpks ([])
    issues_story_encrypt :
        (story_text : String) (story_key : String)
        → Issues (story_encrypt story_text story_key) (text story_text ∷ text story_key ∷ [])
    issues_story_decrypt :
        (ciphertext : String) (story_key : String) (nonce : String)
        → Issues
            (story_decrypt ciphertext story_key nonce)
            (text ciphertext ∷ text story_key ∷ text nonce ∷ [])
