-- ===== src/Vault/Otpk/Refinement.antt =====
-- vault.ts: every sequence of batches that are stored and keys that are consumed behaves as the
-- abstract store of Vault.Otpk.Keystore does.
use ep2pchat.Base.{◌≡◌, refl, ap, ◌∙◌, String, Option, none, List, [], ◌∷◌, ℕ, map}
use ep2pchat.Base.Exec.{Result}
use ep2pchat.Base.Codec.{Base64}
use ep2pchat.Vault.Db.{Db}
use ep2pchat.Vault.Otpk.{OtpkPair, consume_otpk_private_key, store_otpk_batch}
use ep2pchat.Vault.Otpk.Keystore.{
  Status, given_out, consume_key, store_keys, answer_of, AreTexts, Implements,
}
use ep2pchat.Vault.Otpk.Consuming.{consume-Consumed}
use ep2pchat.Vault.Otpk.Storing.{store_batch-Stored}

-- A batch with its pairs as texts, or the use of a key.
pub data KeyCall : Type 0 where
  batch : List OtpkPair → List (String × String) → KeyCall
  consume : String → KeyCall

abbrev pub AreCalls : Base64 → List KeyCall → Type 0
AreCalls b64 [] = Unit
AreCalls b64 (batch ps ts ∷ cs) = AreTexts b64 ps ts × AreCalls b64 cs
AreCalls b64 (consume k ∷ cs) = AreCalls b64 cs

abbrev with_answer :
    Result (Option (List ℕ))
    → List (Result (Option (List ℕ))) × Db
    → List (Result (Option (List ℕ))) × Db
with_answer r (rs, d) = (r ∷ rs, d)

-- What the uses of keys return, and the vault at the end.
unfoldable pub run_keys : Base64 → List KeyCall → Db → List (Result (Option (List ℕ))) × Db
run_keys b64 [] d = ([], d)
run_keys b64 (batch ps ts ∷ cs) d = run_keys b64 cs (store_otpk_batch b64 ps d).1
run_keys b64 (consume k ∷ cs) d =
    let r = consume_otpk_private_key b64 k d in with_answer r.0 (run_keys b64 cs r.1)

-- The texts that the store gives out, and the store at the end.
abbrev pub given : List KeyCall → (String → Status) → List (Option String)
given [] s = []
given (batch ps ts ∷ cs) s = given cs (store_keys ts s)
given (consume k ∷ cs) s = given_out (s k) ∷ given cs (consume_key k s)

abbrev pub store_after : List KeyCall → (String → Status) → String → Status
store_after [] s = s
store_after (batch ps ts ∷ cs) s = store_after cs (store_keys ts s)
store_after (consume k ∷ cs) s = store_after cs (consume_key k s)

module _ (b64 : Base64) where
  -- On a vault that works, is outside of a transaction and holds the keys as the store says, any
  -- sequence of batches, of pairs that the codec takes, and of uses of keys returns for each use
  -- what the store gives out, and leaves a vault that holds the keys as the store does then.
  pub run_keys-given :
      (cs : List KeyCall) (s : String → Status) (d : Db)
      → AreCalls b64 cs
      → Implements d s
      → d.saved ≡ none
      → ((run_keys b64 cs d).0 ≡ map (answer_of b64) (given cs s))
        × Implements (run_keys b64 cs d).1 (store_after cs s)
  unfolding run_keys
  run_keys-given [] s d a i h = (refl, i)
  run_keys-given (batch ps ts ∷ cs) s d (t, a) i h =
      let r = store_batch-Stored b64 ps ts s d t i h in
      run_keys-given cs (store_keys ts s) (store_otpk_batch b64 ps d).1 a r.next (r.saved ∙ h)
  run_keys-given (consume k ∷ cs) s d a i h =
      let r = consume-Consumed b64 k s d i in
      let rest =
        run_keys-given cs (consume_key k s) (consume_otpk_private_key b64 k d).1 a r.next
          (r.saved ∙ h) in
      (
        ap (λ x. x ∷ (run_keys b64 cs (consume_otpk_private_key b64 k d).1).0) r.answer
            ∙ ap (λ l. answer_of b64 (given_out (s k)) ∷ l) rest.0,
        rest.1,
      )
