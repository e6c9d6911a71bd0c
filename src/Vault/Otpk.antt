-- ===== src/Vault/Otpk.antt =====
-- vault.ts: the one-time pre-keys, `storeOtpkBatch`, `consumeOtpkPrivateKey` and `localOtpkCount`.
pub mod Spent
pub mod SingleUse
pub mod Upkeep
pub mod Keystore
pub mod Consuming
pub mod Storing
pub mod Refinement
pub mod Steps
pub mod Uninterrupted
pub mod Advance
pub mod Interleaved
pub mod Twice
pub mod Written
pub mod Tests
use ep2pchat.Base.{
  ℕ, suc, ◌+◌, ◌≡◌, refl, ◌≢◌, ite, String, Bool, true, false, Option, none, some, List, [], ◌∷◌,
  ◌++◌, arith, string_dec, if◌then◌else◌, length, keep_if, not,
}
use ep2pchat.Base.Exec.{Result, ok, err, Exec, pure, throw, ◌>>=◌, ◌>>◌}
use ep2pchat.Base.Codec.{Base64}
use ep2pchat.Vault.Db.{Tables, Db, OtpkRow, execute, select, init_vault}
use ep2pchat.Vault.Transaction.{transaction}

pub record OtpkPair : Type 0 where
  pub key_id : String
  pub private_key : List ℕ

-- SELECT … WHERE key_id = ?
unfoldable pub find_otpk : String → List OtpkRow → Option OtpkRow
find_otpk k [] = none
find_otpk k (r ∷ rs) = ite (string_dec r.key_id k) (some r) (find_otpk k rs)

abbrev ignoring : Option OtpkRow → OtpkRow → List OtpkRow → List OtpkRow
ignoring (some _) r rs = rs
ignoring none r rs = rs ++ r ∷ []

-- INSERT OR IGNORE
pub insert_otpk : OtpkRow → List OtpkRow → List OtpkRow
insert_otpk r rs = ignoring (find_otpk r.key_id rs) r rs

-- UPDATE … SET consumed = 1, consumed_at = datetime('now') WHERE key_id = ?
unfoldable pub mark_consumed : String → String → List OtpkRow → List OtpkRow
mark_consumed now k [] = []
mark_consumed now k (r ∷ rs) =
    ite (string_dec r.key_id k) (record r { consumed = true; consumed_at = some now }) r
    ∷ mark_consumed now k rs

abbrev pub otpks : Db → List OtpkRow
otpks d = d.tables.otpk_private_keys

abbrev pub with_otpks : (List OtpkRow → List OtpkRow) → Tables → Option Tables
with_otpks f t = some (record t { otpk_private_keys = f t.otpk_private_keys })

-- A codec that throws on `none`.
abbrev pub coded : {A : Type 0} → Option A → Exec Db A
coded none = throw "InvalidCharacterError"
coded (some a) = pure a

module _ (b64 : Base64) where
  pub store_otpk : OtpkPair → Exec Db (Unit {0})
  store_otpk pair d =
      (do
        key ← coded (b64.encode pair.private_key)
        execute (
            with_otpks (
              insert_otpk (record {
                key_id = pair.key_id;
                private_key_b64 = key;
                created_at = d.now;
                consumed = false;
                consumed_at = none;
              }))))
        d

  pub store_otpks : List OtpkPair → Exec Db (Unit {0})
  store_otpks [] = pure tt
  store_otpks (pair ∷ pairs) = store_otpk pair >> store_otpks pairs

  pub store_otpk_batch : List OtpkPair → Exec Db (Unit {0})
  store_otpk_batch pairs = do init_vault; transaction (store_otpks pairs)

  -- `if (!row.length || row[0].consumed) return null`, and the rest.
  unfoldable pub use_otpk : String → Option OtpkRow → Exec Db (Option (List ℕ))
  use_otpk k none d = (ok none, d)
  use_otpk k (some r) d =
      if r.consumed
      then (ok none, d)
      else (do
        execute (with_otpks (mark_consumed d.now k))
        bytes ← coded (b64.decode r.private_key_b64)
        pure (some bytes))
          d

  unfoldable pub consume_otpk_private_key : String → Exec Db (Option (List ℕ))
  consume_otpk_private_key k = do
    init_vault
    row ← select (λ t. find_otpk k t.otpk_private_keys)
    use_otpk k row

pub local_otpk_count : Exec Db ℕ
local_otpk_count = do
  init_vault
  select (λ t. length (keep_if (λ r. not r.consumed) t.otpk_private_keys))
