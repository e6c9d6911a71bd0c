-- ===== src/Vault/Otpk/Keystore.antt =====
-- vault.ts: the one-time pre-keys as a store that says of each key whether it is absent, still to be
-- used, or used; and that the tables behave as that store does.
use ep2pchat.Base.{
  ◌≡◌, ite, String, true, false, Option, none, some, List, [], ◌∷◌, ◌++◌, arith, string_dec, ℕ,
}
use ep2pchat.Base.Exec.{Result, ok, err}
use ep2pchat.Base.Codec.{Base64}
use ep2pchat.Vault.Db.{Db, OtpkRow}
use ep2pchat.Vault.Working.{IsWorking}
use ep2pchat.Vault.Otpk.{OtpkPair, find_otpk, insert_otpk, mark_consumed, otpks}

-- The text of a key that is still to be used.
pub data Status : Type 0 where
  absent : Status
  fresh : String → Status
  used : Status

abbrev pub after_use : Status → Status
after_use absent = absent
after_use (fresh text) = used
after_use used = used

abbrev pub after_store : String → Status → Status
after_store text absent = fresh text
after_store text (fresh t) = fresh t
after_store text used = used

abbrev pub given_out : Status → Option String
given_out absent = none
given_out (fresh text) = some text
given_out used = none

-- The operations of the store: nothing but the key itself changes, and a key is stored once.
abbrev pub consume_key : String → (String → Status) → String → Status
consume_key k s j = ite (string_dec k j) (after_use (s j)) (s j)

abbrev pub store_key : String → String → (String → Status) → String → Status
store_key k text s j = ite (string_dec k j) (after_store text (s j)) (s j)

abbrev pub status_of_row : OtpkRow → Status
status_of_row r = elim r.consumed [ true ↦ used | false ↦ fresh r.private_key_b64 ]

abbrev pub status_of : Option OtpkRow → Status
status_of none = absent
status_of (some r) = status_of_row r

abbrev pub status_in : List OtpkRow → String → Status
status_in rs k = status_of (find_otpk k rs)

pub mark_consumed-status :
    (now k j : String) (rs : List OtpkRow)
    → status_in (mark_consumed now k rs) j ≡ consume_key k (status_in rs) j
unfolding mark_consumed find_otpk
mark_consumed-status now k j [] = ground arith
mark_consumed-status now k j (r ∷ rs) = ground (arith, mark_consumed-status now k j rs)

append-status :
    (r : OtpkRow) (j : String) (rs : List OtpkRow)
    → r.consumed ≡ false
    → find_otpk r.key_id rs ≡ none
    → status_in (rs ++ r ∷ []) j ≡ store_key r.key_id r.private_key_b64 (status_in rs) j
unfolding find_otpk
append-status r j [] f h = ground arith
append-status r j (x ∷ rs) f h = ground (arith, append-status r j rs f)

pub insert_otpk-status :
    (r : OtpkRow) (j : String) (rs : List OtpkRow)
    → r.consumed ≡ false
    → status_in (insert_otpk r rs) j ≡ store_key r.key_id r.private_key_b64 (status_in rs) j
unfolding insert_otpk
insert_otpk-status r j rs f = ground (arith, append-status r j rs f)

-- What `consumeOtpkPrivateKey` returns for the text that is given out.
abbrev pub bytes_of : Option (List ℕ) → Result (Option (List ℕ))
bytes_of none = err "InvalidCharacterError"
bytes_of (some bytes) = ok (some bytes)

abbrev pub answer_of : Base64 → Option String → Result (Option (List ℕ))
answer_of b64 none = ok none
answer_of b64 (some text) = bytes_of (b64.decode text)

-- A vault that works holds the keys as the store says.
pub record Implements (d : Db) (s : String → Status) : Type 0 where
  pub vault : IsWorking d
  pub same : (k : String) → status_in (otpks d) k ≡ s k

-- The pairs as texts, one after the other.
abbrev pub store_keys : List (String × String) → (String → Status) → String → Status
store_keys [] s = s
store_keys ((k, text) ∷ ts) s = store_keys ts (store_key k text s)

abbrev pub AreTexts : Base64 → List OtpkPair → List (String × String) → Type 0
AreTexts b64 [] [] = Unit
AreTexts b64 (p ∷ ps) ((k, text) ∷ ts) =
    (p.key_id ≡ k) × (b64.encode p.private_key ≡ some text) × AreTexts b64 ps ts
AreTexts b64 _ _ = ⊥
