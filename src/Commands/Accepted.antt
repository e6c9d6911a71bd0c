-- ===== src/Commands/Accepted.antt =====
-- The commands: the native part takes what the program calls it with.
use ep2pchat.Base.{◌≡◌, refl, String, none, some, List, string_dec}
use ep2pchat.Base.Dict.{lookup}
use ep2pchat.Commands.{Arg, Invocation, accept}
use ep2pchat.Commands.Calls.{
  Issues, share_encrypt, issues_generate_keys, issues_alice_encrypt, issues_bob_decrypt,
  issues_alice_x3dh, issues_bob_x3dh, issues_ratchet_init_sender, issues_ratchet_init_receiver,
  issues_ratchet_encrypt, issues_ratchet_decrypt, issues_get_vault_key, issues_clear_session,
  issues_set_session_jwt, issues_sign_login_challenge, issues_check_otpks, issues_story_encrypt,
  issues_story_decrypt,
}

module _ {H : Type 0} where
  -- Every call but the share of a story's key reaches its handler with the values that it names, in
  -- their order, whatever they are.
  pub accept-Issues :
      {i : Invocation H} {values : List (Arg H)} → Issues i values → accept i ≡ some values
  unfolding accept lookup string_dec
  accept-Issues issues_generate_keys = refl
  accept-Issues (issues_alice_encrypt alice_ik_sk bob_ik_pk bob_spk_pk none message) = refl
  accept-Issues (issues_alice_encrypt alice_ik_sk bob_ik_pk bob_spk_pk (some key) message) = refl
  accept-Issues
        (issues_bob_decrypt bob_ik_sk bob_spk_sk none alice_ik_pk alice_ek_pk ciphertext nonce) =
      refl
  accept-Issues
        (issues_bob_decrypt bob_ik_sk bob_spk_sk
          (some key)
          alice_ik_pk
          alice_ek_pk
          ciphertext
          nonce) =
      refl
  accept-Issues (issues_alice_x3dh alice_ik_sk bob_ik_pk bob_spk_pk none) = refl
  accept-Issues (issues_alice_x3dh alice_ik_sk bob_ik_pk bob_spk_pk (some key)) = refl
  accept-Issues (issues_bob_x3dh bob_ik_sk bob_spk_sk none alice_ik_pk alice_ek_pk) = refl
  accept-Issues (issues_bob_x3dh bob_ik_sk bob_spk_sk (some key) alice_ik_pk alice_ek_pk) = refl
  accept-Issues (issues_ratchet_init_sender shared_secret bob_spk_public) = refl
  accept-Issues (issues_ratchet_init_receiver shared_secret bob_spk_public bob_spk_private) = refl
  accept-Issues (issues_ratchet_encrypt session_json plaintext conv_id) = refl
  accept-Issues (issues_ratchet_decrypt session_json head ciphertext conv_id) = refl
  accept-Issues issues_get_vault_key = refl
  accept-Issues issues_clear_session = refl
  accept-Issues (issues_set_session_jwt token) = refl
  accept-Issues (issues_sign_login_challenge identity_secret challenge) = refl
  accept-Issues issues_check_otpks = refl
  accept-Issues (issues_story_encrypt story_text story_key) = refl
  accept-Issues (issues_story_decrypt ciphertext story_key nonce) = refl

  pub accept-share :
      (session_json plaintext contact_id : String)
      → accept {H = H} (share_encrypt session_json plaintext contact_id) ≡ none
  unfolding accept lookup string_dec
  accept-share session_json plaintext contact_id = refl
