-- ===== src/Vault/Otpk/Steps.antt =====
-- vault.ts, `consumeOtpkPrivateKey` between its awaits: other calls run while one of them waits
-- for the database. The opening of the vault is one step here.
use ep2pchat.Base.{ℕ, String, Option, none, some, List, [], ◌∷◌, if◌then◌else◌, update}
use ep2pchat.Base.Exec.{Result, ok, err}
use ep2pchat.Base.Codec.{Base64}
use ep2pchat.Vault.Db.{Db, OtpkRow, execute, select, init_vault}
use ep2pchat.Vault.Otpk.{find_otpk, mark_consumed, with_otpks}

-- What a call waits to do: `initVault`, the SELECT, the UPDATE for the row that was read; or how
-- its promise was settled.
pub data ConsumeCall : Type 0 where
  initiating : ConsumeCall
  selecting : ConsumeCall
  marking : OtpkRow → ConsumeCall
  settled : Result (Option (List ℕ)) → ConsumeCall

module _ (b64 : Base64) where
  abbrev pub after_init : Result (Unit {0}) → ConsumeCall
  after_init (ok _) = selecting
  after_init (err e) = settled (err e)

  abbrev pub after_select : Result (Option OtpkRow) → ConsumeCall
  after_select (ok none) = settled (ok none)
  after_select (ok (some r)) = if r.consumed then settled (ok none) else marking r
  after_select (err e) = settled (err e)

  abbrev pub bytes_in : Option (List ℕ) → Result (Option (List ℕ))
  bytes_in none = err "InvalidCharacterError"
  bytes_in (some bytes) = ok (some bytes)

  abbrev pub after_mark : OtpkRow → Result (Unit {0}) → ConsumeCall
  after_mark r (ok _) = settled (bytes_in (b64.decode r.private_key_b64))
  after_mark r (err e) = settled (err e)

  -- A call for the key `k` goes on to its next await.
  unfoldable pub advance : String → ConsumeCall → Db → ConsumeCall × Db
  advance k initiating d = let r = init_vault d in (after_init r.0, r.1)
  advance k selecting d =
      let r = select (λ t. find_otpk k t.otpk_private_keys) d in (after_select r.0, r.1)
  advance k (marking row) d =
      let r = execute (with_otpks (mark_consumed d.now k)) d in (after_mark row r.0, r.1)
  advance k (settled r) d = (settled r, d)

  -- The calls that run, by their numbers, over one vault.
  pub record Flight : Type 0 where
    pub db : Db
    pub in_flight : ℕ → ConsumeCall

  abbrev moved : ℕ → Flight → ConsumeCall × Db → Flight
  moved i s r = record { db = r.1; in_flight = update s.in_flight i r.0 }

  -- The event loop resumes call `i`; call `i` is for the key `keys i`.
  unfoldable pub resume : (ℕ → String) → ℕ → Flight → Flight
  resume keys i s = moved i s (advance (keys i) (s.in_flight i) s.db)

  unfoldable pub resumes : (ℕ → String) → List ℕ → Flight → Flight
  resumes keys [] s = s
  resumes keys (i ∷ is) s = resumes keys is (resume keys i s)
