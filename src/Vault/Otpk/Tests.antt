-- ===== src/Vault/Otpk/Tests.antt =====
-- The interleaved calls of `consumeOtpkPrivateKey` at concrete inputs.
use ep2pchat.Base.{ℕ, ◌≡◌, ◌≢◌, refl, String, some, [], ◌∷◌, string_dec, ℕ_discrete, arith}
use ep2pchat.Base.Exec.{ok}
use ep2pchat.Samples.{toy_b64}
use ep2pchat.Vault.Db.{execute, select, init_vault}
use ep2pchat.Vault.Otpk.{find_otpk, mark_consumed}
use ep2pchat.Vault.Otpk.Steps.{Flight, initiating, settled, advance, resume, resumes}
use ep2pchat.Vault.Otpk.Interleaved.{resumes-once}
use ep2pchat.Vault.Otpk.Twice.{resumes-twice}
use ep2pchat.Vault.Tests.{key_row, key_db}

abbrev two_calls : Flight toy_b64
two_calls = record { db = key_db; in_flight = λ i. initiating }

abbrev one_key : ℕ → String
one_key i = "k1"

resumes-once_example :
    (resumes toy_b64 one_key
        (1 ∷ 1 ∷ 1 ∷ [])
        (resumes toy_b64 one_key (0 ∷ 0 ∷ 0 ∷ []) two_calls)).in_flight
      1
    ≢ settled (ok (some []))
unfolding resumes resume advance init_vault select execute find_otpk mark_consumed string_dec
    ℕ_discrete
resumes-once_example =
    resumes-once toy_b64 one_key two_calls (0 ∷ 0 ∷ 0 ∷ []) (1 ∷ 1 ∷ 1 ∷ []) 0 1 [] [] (λ n. refl)
      refl refl tt

resumes-twice_example :
    ((resumes toy_b64 one_key (0 ∷ 1 ∷ 0 ∷ 1 ∷ 0 ∷ 1 ∷ []) two_calls).in_flight 0
      ≡ settled (ok (some [])))
    × ((resumes toy_b64 one_key (0 ∷ 1 ∷ 0 ∷ 1 ∷ 0 ∷ 1 ∷ []) two_calls).in_flight 1
        ≡ settled (ok (some [])))
unfolding find_otpk string_dec
resumes-twice_example =
    resumes-twice toy_b64 one_key 0 1 two_calls key_row [] (omega arith) refl refl refl
      (record { opened = refl; faults = refl }) refl refl refl
