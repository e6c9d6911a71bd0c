-- ===== src/Commands/Crypto.antt =====
-- infrastructure/crypto.ts: the calls of `invoke`.
use ep2pchat.Base.{String, Option, [], ◌∷◌}
use ep2pchat.Commands.{Invocation, opt, text, header}

module _ {H : Type 0} where
  abbrev pub generate_keys : Invocation H
  generate_keys = record { command = "generate_keys"; arguments = [] }

  abbrev pub alice_encrypt : String → String → String → Option String → String → Invocation H
  alice_encrypt alice_ik_sk bob_ik_pk bob_spk_pk bob_opk_pk message = record {
    command = "alice_handshake_and_encrypt";
    arguments =
        ("aliceIkSkB64", text alice_ik_sk)
        ∷ ("bobIkPkB64", text bob_ik_pk)
        ∷ ("bobSpkPkB64", text bob_spk_pk)
        ∷ ("bobOpkPkB64", opt bob_opk_pk)
        ∷ ("message", text message)
        ∷ [];
  }

  abbrev pub bob_decrypt :
      String → String → Option String → String → String → String → String → Invocation H
  bob_decrypt bob_ik_sk bob_spk_sk bob_opk_sk alice_ik_pk alice_ek_pk ciphertext nonce = record {
    command = "bob_handshake_and_decrypt";
    arguments =
        ("bobIkSkB64", text bob_ik_sk)
        ∷ ("bobSpkSkB64", text bob_spk_sk)
        ∷ ("bobOpkSkB64", opt bob_opk_sk)
        ∷ ("aliceIkPkB64", text alice_ik_pk)
        ∷ ("aliceEkPkB64", text alice_ek_pk)
        ∷ ("ciphertext", text ciphertext)
        ∷ ("nonce", text nonce)
        ∷ [];
  }

  abbrev pub alice_x3dh : String → String → String → Option String → Invocation H
  alice_x3dh alice_ik_sk bob_ik_pk bob_spk_pk bob_opk_pk = record {
    command = "alice_x3dh";
    arguments =
        ("aliceIkSkB64", text alice_ik_sk)
        ∷ ("bobIkPkB64", text bob_ik_pk)
        ∷ ("bobSpkPkB64", text bob_spk_pk)
        ∷ ("bobOpkPkB64", opt bob_opk_pk)
        ∷ [];
  }

  abbrev pub bob_x3dh : String → String → Option String → String → String → Invocation H
  bob_x3dh bob_ik_sk bob_spk_sk bob_opk_sk alice_ik_pk alice_ek_pk = record {
    command = "bob_x3dh";
    arguments =
        ("bobIkSkB64", text bob_ik_sk)
        ∷ ("bobSpkSkB64", text bob_spk_sk)
        ∷ ("bobOpkSkB64", opt bob_opk_sk)
        ∷ ("aliceIkPkB64", text alice_ik_pk)
        ∷ ("aliceEkPkB64", text alice_ek_pk)
        ∷ [];
  }

  abbrev pub ratchet_init_sender : String → String → Invocation H
  ratchet_init_sender shared_secret bob_spk_public = record {
    command = "ratchet_init_sender";
    arguments =
        ("sharedSecretB64", text shared_secret) ∷ ("bobSpkPublicB64", text bob_spk_public) ∷ [];
  }

  abbrev pub ratchet_init_receiver : String → String → String → Invocation H
  ratchet_init_receiver shared_secret bob_spk_public bob_spk_private = record {
    command = "ratchet_init_receiver";
    arguments =
        ("sharedSecretB64", text shared_secret)
        ∷ ("bobSpkPublicB64", text bob_spk_public)
        ∷ ("bobSpkPrivateB64", text bob_spk_private)
        ∷ [];
  }

  abbrev pub ratchet_encrypt : String → String → String → Invocation H
  ratchet_encrypt session_json plaintext conv_id = record {
    command = "ratchet_encrypt";
    arguments =
        ("sessionJson", text session_json)
        ∷ ("plaintext", text plaintext)
        ∷ ("convId", text conv_id)
        ∷ [];
  }

  abbrev pub ratchet_decrypt : String → H → String → String → Invocation H
  ratchet_decrypt session_json head ciphertext conv_id = record {
    command = "ratchet_decrypt";
    arguments =
        ("sessionJson", text session_json)
        ∷ ("header", header head)
        ∷ ("ciphertextB64", text ciphertext)
        ∷ ("convId", text conv_id)
        ∷ [];
  }
