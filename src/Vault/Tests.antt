-- ===== src/Vault/Tests.antt =====
-- The theorems on the vault at concrete inputs.
use ep2pchat.Base.{◌≡◌, ◌≢◌, refl, true, false, none, some, [], ◌∷◌, arith, string_dec}
use ep2pchat.Base.Exec.{ok, Exec}
use ep2pchat.Base.{ℕ, dec_lt, List, arith}
use ep2pchat.Samples.{toy_b64, toy_cipher, text_of}
use ep2pchat.Vault.Keys.{save_local_keys, get_local_keys}
use ep2pchat.Vault.Keys.RoundTrip.{IsIv, get-save_local_keys}
use ep2pchat.Vault.Db.{LocalKeyRow}
use ep2pchat.Vault.Db.{Db, OtpkRow, no_rows, execute, select, init_vault}
use ep2pchat.Vault.Transaction.{transaction, begun, KeepsSaved, Outcome, transaction-Outcome}
use ep2pchat.Vault.Otpk.{
  find_otpk, use_otpk, mark_consumed, with_otpks, insert_otpk, consume_otpk_private_key,
}
use ep2pchat.Vault.Otpk.{otpks}
use ep2pchat.Vault.Otpk.Keystore.{status_in, answer_of, Implements}
use ep2pchat.Vault.Otpk.Refinement.{
  KeyCall, batch, consume, run_keys, given, store_after, run_keys-given,
}
use ep2pchat.Base.{map}
use ep2pchat.Vault.Otpk.SingleUse.{stores, calls, consume_once}

abbrev pub open_db : Db
open_db = record {
  opened = true;
  cached_secret = some "key";
  tables = no_rows;
  saved = none;
  faults = [];
  keychain = "key";
  fts_empty = true;
  now = "2026-01-01";
}

abbrev pub key_row : OtpkRow
key_row = record {
  key_id = "k1";
  private_key_b64 = "";
  created_at = "2026-01-01";
  consumed = false;
  consumed_at = none;
}

abbrev pub key_db : Db
key_db = record open_db { tables = record no_rows { otpk_private_keys = key_row ∷ [] } }

-- BEGIN works, the insertion fails and the ROLLBACK works.
abbrev failing_db : Db
failing_db = record key_db { faults = false ∷ true ∷ [] }

abbrev adds_key : Exec Db (Unit {0})
adds_key = execute (with_otpks (insert_otpk (record key_row { key_id = "k2" })))

adds_key-KeepsSaved : KeepsSaved adds_key
unfolding execute
adds_key-KeepsSaved d = ground arith

transaction-Outcome_example :
    Outcome failing_db
      (adds_key (begun failing_db)).0
      (adds_key (begun failing_db)).1
      (transaction adds_key failing_db)
transaction-Outcome_example = transaction-Outcome adds_key failing_db adds_key-KeepsSaved refl

key_db-consumes : (consume_otpk_private_key toy_b64 "k1" key_db).0 ≡ ok (some [])
unfolding consume_otpk_private_key use_otpk mark_consumed init_vault select find_otpk execute
    string_dec
key_db-consumes = refl

consume_once_example :
    (consume_otpk_private_key toy_b64 "k1" (
      calls toy_b64
        (stores (record { key_id = "k1"; private_key = 7 ∷ [] } ∷ []) ∷ [])
        (consume_otpk_private_key toy_b64 "k1" key_db).1)).0
    ≢ ok (some (7 ∷ []))
consume_once_example =
    consume_once toy_b64 "k1" key_db
      (stores (record { key_id = "k1"; private_key = 7 ∷ [] } ∷ []) ∷ []) [] (7 ∷ []) refl
      key_db-consumes

-- The secrets are texts of the codec of the samples.
abbrev bundle : LocalKeyRow
bundle = record {
  identity_public = "ip";
  identity_secret = text_of (1 ∷ 2 ∷ []);
  signed_pre_key_public = "sp";
  signed_pre_key_secret = text_of (3 ∷ []);
  signed_pre_key_signature = "sig";
  is_active = false;
}

abbrev nonce : List ℕ
nonce = 0 ∷ 1 ∷ 2 ∷ 3 ∷ 4 ∷ 5 ∷ 6 ∷ 7 ∷ 8 ∷ 9 ∷ 10 ∷ 255 ∷ []

nonce-IsIv : IsIv nonce
nonce-IsIv = ground arith

get-save_local_keys_example :
    (get_local_keys toy_b64 toy_cipher
      (save_local_keys toy_b64 toy_cipher nonce nonce bundle open_db).1).0
    ≡ ok (some (record bundle { is_active = true }))
unfolding dec_lt string_dec
get-save_local_keys_example =
    get-save_local_keys toy_b64 toy_cipher bundle open_db refl refl nonce nonce (1 ∷ 2 ∷ [])
      (3 ∷ []) refl refl nonce-IsIv nonce-IsIv refl refl refl refl

abbrev key_calls : List KeyCall
key_calls =
    batch (record { key_id = "k2"; private_key = 7 ∷ [] } ∷ []) (("k2", text_of (7 ∷ [])) ∷ [])
    ∷ consume "k2"
    ∷ consume "k2"
    ∷ consume "k1"
    ∷ []

run_keys-given_example :
    ((run_keys toy_b64 key_calls key_db).0
      ≡ map (answer_of toy_b64) (given key_calls (status_in (otpks key_db))))
    × Implements
        (run_keys toy_b64 key_calls key_db).1
        (store_after key_calls (status_in (otpks key_db)))
run_keys-given_example =
    run_keys-given toy_b64 key_calls (status_in (otpks key_db)) key_db ((refl, refl, tt), tt)
      (record { vault = record { opened = refl; faults = refl }; same = λ k. refl }) refl
