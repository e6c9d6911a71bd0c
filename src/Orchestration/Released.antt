-- ===== src/Orchestration/Released.antt =====
-- crypto_orchestration.ts: a plaintext is released only with its session saved.
use ep2pchat.Base.{
  ◌≡◌, String, Option, none, some, inl, inr, Bool-cases, truthy, or_text, if-true, if-false,
}
use ep2pchat.Base.Dict.{lookup, lookup-insert_self}
use ep2pchat.Base.Exec.{Result, ok, err, pure, catch, bind_cases, catch_cases}
use ep2pchat.Base.Codec.{Base64}
use ep2pchat.Vault.Db.{Db, execute, next_fails, init_vault}
use ep2pchat.Vault.Keyed.{save_ratchet_session, get_ratchet_session, put_session}
use ep2pchat.Orchestration.{
  Ratchet, Incoming, LocalKeys, Decrypted, invoked, session_for, decrypt_with, process_step,
  process_for, process_incoming_message, save_or_stop,
}

-- The session `v` is the one that the vault holds for `k`.
abbrev pub IsStored : String → String → Db → Type 0
IsStored k v d = lookup k d.tables.ratchet_sessions ≡ some v

abbrev Stores : String → String → Result (Unit {0}) × Db → Type 0
Stores k v (ok _, d) = IsStored k v d
Stores k v (err x, d) = Unit

execute-Stores : (k v : String) (d : Db) → Stores k v (execute (put_session k v) d)
unfolding execute
execute-Stores k v d = elim (Bool-cases (next_fails d.faults)) [
  | inl b ↦ rw (b, execute) tt
  | inr b ↦ rw (b, execute) (lookup-insert_self k v d.tables.ratchet_sessions)
]

save_ratchet_session-Stores : (k v : String) (d : Db) → Stores k v (save_ratchet_session k v d)
unfolding save_ratchet_session
save_ratchet_session-Stores k v d =
    bind_cases (Stores k v) init_vault (λ _. execute (put_session k v)) d (λ x t e. tt)
      (λ a t e. execute-Stores k v t)

module _ (b64 : Base64) (native : Ratchet) where
  -- A result comes with the session saved.
  abbrev pub Released : Result (Option (Decrypted b64 native)) × Db → Type 0
  Released (ok (some r), d) = IsStored r.conversation_id r.new_session_json d
  Released _ = Unit

  save_or_stop-Stores : (k v : String) (d : Db) → Stores k v (save_or_stop b64 native k v d)
  save_or_stop-Stores k v d =
      catch_cases (Stores k v) (save_ratchet_session k v) _ d (λ x t e. tt)
        (λ a t e. rw e at (save_ratchet_session-Stores k v d))

  decrypt_with-Released :
      (k : String) (p : Incoming b64 native) (s : Option String) (h : Option native.Header) (d : Db)
      → Released (decrypt_with b64 native k p s h d)
  unfolding decrypt_with
  decrypt_with-Released k p none h d = tt
  decrypt_with-Released k p (some s) none d = tt
  decrypt_with-Released k p (some s) (some h) d =
      bind_cases Released (invoked b64 native (native.ratchet_decrypt s h p.ciphertext k)) _ d
        (λ x t e. tt)
        (λ r t e.
          bind_cases Released (save_or_stop b64 native k r.0) _ t (λ x u e'. tt)
            (λ _ u e'. rw e' at (save_or_stop-Stores k r.0 t)))

  process_step-Released :
      (k : String) (p : Incoming b64 native) (keys : LocalKeys) (d : Db)
      → Released (process_step b64 native k p keys d)
  unfolding process_step
  process_step-Released k p keys d =
      bind_cases Released (catch (get_ratchet_session k) (λ _. pure none)) _ d (λ x t e. tt)
        (λ stored t e.
          bind_cases Released (session_for b64 native stored p keys)
            (λ s. decrypt_with b64 native k p s p.header) t (λ x u e'. tt)
            (λ s u e'. decrypt_with-Released k p s p.header u))

  process_for-Released :
      (o : Option String) (p : Incoming b64 native) (keys : LocalKeys) (d : Db)
      → Released (process_for b64 native o p keys d)
  unfolding process_for
  process_for-Released none p keys d = tt
  process_for-Released (some k) p keys d = elim (Bool-cases (truthy k)) [
    | inl h ↦
        rw
          (if-true (truthy k) (catch (process_step b64 native k p keys) (λ _. pure none))
            (pure none) h)
          (catch_cases Released (process_step b64 native k p keys) (λ _. pure none) d (λ x t e. tt)
            (λ r t e. rw e at (process_step-Released k p keys d)))
    | inr h ↦
        rw
          (if-false (truthy k) (catch (process_step b64 native k p keys) (λ _. pure none))
            (pure none) h)
          tt
  ]

  -- Whenever a message is decrypted, the vault holds the advanced session for its conversation:
  -- no plaintext is released whose session was not saved.
  pub process-IsStored :
      (p : Incoming b64 native) (keys : LocalKeys) (active : Option String) (d e : Db)
      (r : Decrypted b64 native)
      → process_incoming_message b64 native p keys active d ≡ (ok (some r), e)
      → IsStored r.conversation_id r.new_session_json e
  unfolding process_incoming_message
  process-IsStored p keys active d e r h =
      rw h at (process_for-Released (or_text p.sender_user_id active) p keys d)
