-- ===== src/Vault/Otpk/Upkeep.antt =====
-- infrastructure/otpk.ts: what is stored of the keys that the native part made and uploaded.
use ep2pchat.Base.{ℕ, Bool, Option, none, some, List, [], ◌∷◌}
use ep2pchat.Base.Codec.{Base64}
use ep2pchat.Vault.Db.{Db}
use ep2pchat.Vault.Otpk.{OtpkPair, store_otpk_batch}

pub record ReplenishResult : Type 0 where
  pub needed : Bool
  pub uploaded : ℕ
  pub server_count_before : ℕ
  pub private_pairs : Option (List OtpkPair)

abbrev stored_pairs : Base64 → Option (List OtpkPair) → Db → Db
stored_pairs b64 none d = d
stored_pairs b64 (some []) d = d
stored_pairs b64 (some (p ∷ ps)) d = (store_otpk_batch b64 (p ∷ ps) d).1

-- The result of the command, or none where it was rejected; whether the keys could be stored is not
-- looked at.
unfoldable pub replenish_otpks : Base64 → Option ReplenishResult → Db → Db
replenish_otpks b64 none d = d
replenish_otpks b64 (some r) d = stored_pairs b64 r.private_pairs d
