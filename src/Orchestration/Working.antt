-- ===== src/Orchestration/Working.antt =====
-- crypto_orchestration.ts, `processIncomingMessage`: a message of a conversation whose session is
-- stored, on a vault that works.
use ep2pchat.Base.{◌≡◌, refl, ap, ◌∙◌, String, true, Option, none, some, truthy, or_text, arith}
use ep2pchat.Base.Dict.{lookup}
use ep2pchat.Base.Exec.{ok, err}
use ep2pchat.Base.Codec.{Base64}
use ep2pchat.Vault.Db.{Db}
use ep2pchat.Vault.Working.{
  IsWorking, put_session_row, get_ratchet_session-working, save_ratchet_session-working,
}
use ep2pchat.Orchestration.{
  Ratchet, LocalKeys, Incoming, session_for, decrypt_with, process_step, process_for,
  process_incoming_message,
}

or_text-truthy : (s : String) (o : Option String) → truthy s ≡ true → or_text (some s) o ≡ some s
or_text-truthy s o h = ground arith

module _ (b64 : Base64) (native : Ratchet) where
  -- The session of the sender is stored and the header is there.
  pub record Expects (p : Incoming b64 native) (sender session : String) (h : native.Header)
      (d : Db) : Type 0 where
    pub vault : IsWorking d
    pub sent_by : p.sender_user_id ≡ some sender
    pub named : truthy sender ≡ true
    pub stored : lookup sender d.tables.ratchet_sessions ≡ some session
    pub usable : truthy session ≡ true
    pub headed : p.header ≡ some h

  module _ (p : Incoming b64 native) (keys : LocalKeys) (active : Option String)
      (sender session : String) (h : native.Header) (d : Db)
      (x : Expects p sender session h d) where
    process_step-opened :
        (next text : String)
        → native.ratchet_decrypt session h p.ciphertext sender ≡ some (next, text)
        → process_step b64 native sender p keys d ≡ (
          ok (
              some
                (record { conversation_id = sender; plaintext = text; new_session_json = next })),
          put_session_row sender next d,
        )
    unfolding process_step session_for decrypt_with
    process_step-opened next text e = rw (get_ratchet_session-working d x.vault sender) (
        rw x.stored (
          rw x.usable
            (rw x.headed (rw e (rw (save_ratchet_session-working d x.vault sender next) refl)))))

    process_step-rejected :
        native.ratchet_decrypt session h p.ciphertext sender ≡ none
        → process_step b64 native sender p keys d ≡ (err "command failed", d)
    unfolding process_step session_for decrypt_with
    process_step-rejected e =
        rw (get_ratchet_session-working d x.vault sender)
          (rw x.stored (rw x.usable (rw x.headed (rw e refl))))

    process-step :
        process_incoming_message b64 native p keys active d
        ≡ process_for b64 native (some sender) p keys d
    unfolding process_incoming_message
    process-step =
        ap (λ o. process_for b64 native (or_text o active) p keys d) x.sent_by
        ∙ ap (λ o. process_for b64 native o p keys d) (or_text-truthy sender active x.named)

    pub process-opened :
        (next text : String)
        → native.ratchet_decrypt session h p.ciphertext sender ≡ some (next, text)
        → process_incoming_message b64 native p keys active d ≡ (
          ok (
              some
                (record { conversation_id = sender; plaintext = text; new_session_json = next })),
          put_session_row sender next d,
        )
    unfolding process_for
    process-opened next text e =
        process-step ∙ rw x.named (rw (process_step-opened next text e) refl)

    pub process-rejected :
        native.ratchet_decrypt session h p.ciphertext sender ≡ none
        → process_incoming_message b64 native p keys active d ≡ (ok none, d)
    unfolding process_for
    process-rejected e = process-step ∙ rw x.named (rw (process_step-rejected e) refl)
