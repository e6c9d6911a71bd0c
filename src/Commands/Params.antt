-- ===== src/Commands/Params.antt =====
-- src-tauri/src/lib.rs: the commands that are called, with their parameters.
use ep2pchat.Base.{String, List, [], ◌∷◌}

-- A parameter of type String, of type Option<String>, or of type MessageHeader.
pub data Param : Type 0 where
  text_param optional_param header_param : String → Param

-- The parameters of the commands.
abbrev set_session_jwt_params : List Param
set_session_jwt_params = text_param "jwt" ∷ []

abbrev sign_login_challenge_params : List Param
sign_login_challenge_params = text_param "identity_secret_b64" ∷ text_param "challenge_b64" ∷ []

abbrev alice_x3dh_params : List Param
alice_x3dh_params =
    text_param "alice_ik_sk_b64"
    ∷ text_param "bob_ik_pk_b64"
    ∷ text_param "bob_spk_pk_b64"
    ∷ optional_param "bob_opk_pk_b64"
    ∷ []

abbrev bob_x3dh_params : List Param
bob_x3dh_params =
    text_param "bob_ik_sk_b64"
    ∷ text_param "bob_spk_sk_b64"
    ∷ optional_param "bob_opk_sk_b64"
    ∷ text_param "alice_ik_pk_b64"
    ∷ text_param "alice_ek_pk_b64"
    ∷ []

abbrev alice_handshake_and_encrypt_params : List Param
alice_handshake_and_encrypt_params =
    text_param "alice_ik_sk_b64"
    ∷ text_param "bob_ik_pk_b64"
    ∷ text_param "bob_spk_pk_b64"
    ∷ optional_param "bob_opk_pk_b64"
    ∷ text_param "message"
    ∷ []

abbrev bob_handshake_and_decrypt_params : List Param
bob_handshake_and_decrypt_params =
    text_param "bob_ik_sk_b64"
    ∷ text_param "bob_spk_sk_b64"
    ∷ optional_param "bob_opk_sk_b64"
    ∷ text_param "alice_ik_pk_b64"
    ∷ text_param "alice_ek_pk_b64"
    ∷ text_param "ciphertext"
    ∷ text_param "nonce"
    ∷ []

abbrev ratchet_init_sender_params : List Param
ratchet_init_sender_params = text_param "shared_secret_b64" ∷ text_param "bob_spk_public_b64" ∷ []

abbrev ratchet_init_receiver_params : List Param
ratchet_init_receiver_params =
    text_param "shared_secret_b64"
    ∷ text_param "bob_spk_public_b64"
    ∷ text_param "bob_spk_private_b64"
    ∷ []

abbrev ratchet_encrypt_params : List Param
ratchet_encrypt_params =
    text_param "session_json" ∷ text_param "plaintext" ∷ text_param "conv_id" ∷ []

abbrev ratchet_decrypt_params : List Param
ratchet_decrypt_params =
    text_param "session_json"
    ∷ header_param "header"
    ∷ text_param "ciphertext_b64"
    ∷ text_param "conv_id"
    ∷ []

abbrev story_encrypt_params : List Param
story_encrypt_params = text_param "plaintext" ∷ text_param "key_b64" ∷ []

abbrev story_decrypt_params : List Param
story_decrypt_params =
    text_param "ciphertext_b64" ∷ text_param "key_b64" ∷ text_param "nonce_b64" ∷ []

-- `generate_handler!`, but for the commands that nothing calls; a command that takes nothing but what
-- Tauri itself hands over has no parameters here.
abbrev pub handlers : List (String × List Param)
handlers =
    ("get_or_create_vault_key", [])
    ∷ ("clear_vault_session", [])
    ∷ ("set_session_jwt", set_session_jwt_params)
    ∷ ("generate_keys", [])
    ∷ ("sign_login_challenge", sign_login_challenge_params)
    ∷ ("alice_x3dh", alice_x3dh_params)
    ∷ ("bob_x3dh", bob_x3dh_params)
    ∷ ("alice_handshake_and_encrypt", alice_handshake_and_encrypt_params)
    ∷ ("bob_handshake_and_decrypt", bob_handshake_and_decrypt_params)
    ∷ ("ratchet_init_sender", ratchet_init_sender_params)
    ∷ ("ratchet_init_receiver", ratchet_init_receiver_params)
    ∷ ("ratchet_encrypt", ratchet_encrypt_params)
    ∷ ("ratchet_decrypt", ratchet_decrypt_params)
    ∷ ("check_and_replenish_otpks", [])
    ∷ ("story_encrypt", story_encrypt_params)
    ∷ ("story_decrypt", story_decrypt_params)
    ∷ []
