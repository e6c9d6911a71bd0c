-- ===== src/Vault/Otpk/Spent.antt =====
-- vault.ts: a one-time pre-key that was consumed stays so under every operation on the keys.
use ep2pchat.Base.{
  ◌≡◌, if_pos, if_neg, String, Bool, true, false, Option, none, some, List, [], ◌∷◌, ◌++◌, ℕ, arith,
  string_dec, Bool-cases, if-true, if-false, inl, inr,
}
use ep2pchat.Base.Exec.{Exec, pure, ◌>>=◌, ◌>>◌}
use ep2pchat.Base.Codec.{Base64}
use ep2pchat.Vault.Db.{Tables, Db, OtpkRow, execute, select, init_vault}
use ep2pchat.Vault.Keeps.{
  Keeps, KeptBy, Keeps-pure, Keeps-throw, Keeps-execute, Keeps-select, Keeps-bind,
  Keeps-transaction, Keeps-init_vault,
}
use ep2pchat.Vault.Transaction.{transaction}
use ep2pchat.Vault.Otpk.{
  OtpkPair, find_otpk, insert_otpk, mark_consumed, with_otpks, coded, store_otpk, store_otpks,
  store_otpk_batch, use_otpk, consume_otpk_private_key,
}

abbrev pub is_spent : Option OtpkRow → Bool
is_spent none = false
is_spent (some r) = r.consumed

-- The key's row is there, and says that it was consumed.
abbrev pub IsSpent : String → Tables → Type 0
IsSpent k t = is_spent (find_otpk k t.otpk_private_keys) ≡ true

find_otpk-append :
    (k : String) (rs : List OtpkRow) (r : OtpkRow)
    → is_spent (find_otpk k rs) ≡ true
    → is_spent (find_otpk k (rs ++ r ∷ [])) ≡ true
unfolding find_otpk
find_otpk-append k [] r h = cc
find_otpk-append k (x ∷ rs) r h = elim (string_dec x.key_id k) [
  | yes p ↦ rw (if_pos _ p) (rw (if_pos _ p) at h)
  | no n ↦ rw (if_neg _ n) (find_otpk-append k rs r (rw (if_neg _ n) at h))
]

insert_otpk-spent :
    (k : String) (rs : List OtpkRow) (r : OtpkRow)
    → is_spent (find_otpk k rs) ≡ true
    → is_spent (find_otpk k (insert_otpk r rs)) ≡ true
unfolding insert_otpk
insert_otpk-spent k rs r h = ground (arith, find_otpk-append k rs r)

pub mark_consumed-spent :
    (now j k : String) (rs : List OtpkRow)
    → is_spent (find_otpk k rs) ≡ true
    → is_spent (find_otpk k (mark_consumed now j rs)) ≡ true
unfolding mark_consumed find_otpk
mark_consumed-spent now j k [] h = cc
mark_consumed-spent now j k (x ∷ rs) h = ground (arith, mark_consumed-spent now j k rs)

-- The UPDATE reaches the row that the SELECT found.
pub mark_consumed_self :
    (now k : String) (rs : List OtpkRow) (r : OtpkRow)
    → find_otpk k rs ≡ some r
    → is_spent (find_otpk k (mark_consumed now k rs)) ≡ true
unfolding mark_consumed find_otpk
mark_consumed_self now k [] r h = cc
mark_consumed_self now k (x ∷ rs) r h = ground (arith, mark_consumed_self now k rs r)

module _ (k : String) where
  insert-KeptBy : (r : OtpkRow) → KeptBy (IsSpent k) (with_otpks (insert_otpk r))
  insert-KeptBy r t u h e = ground (arith, insert_otpk-spent k t.otpk_private_keys r)

  mark-KeptBy : (now j : String) → KeptBy (IsSpent k) (with_otpks (mark_consumed now j))
  mark-KeptBy now j t u h e = ground (arith, mark_consumed-spent now j k t.otpk_private_keys)

  coded-Keeps : {A : Type 0} (o : Option A) → Keeps (IsSpent k) (coded o)
  coded-Keeps none = Keeps-throw (IsSpent k) "InvalidCharacterError"
  coded-Keeps (some a) = Keeps-pure (IsSpent k) a

module _ (b64 : Base64) (k : String) where
  store_otpk-Keeps : (pair : OtpkPair) → Keeps (IsSpent k) (store_otpk b64 pair)
  unfolding store_otpk
  store_otpk-Keeps pair = record {
    at = λ d.
        (Keeps-bind (IsSpent k) (coded (b64.encode pair.private_key)) _ (coded-Keeps k _)
            (λ key. Keeps-execute (IsSpent k) _ (insert-KeptBy k _))).at
          d;
  }

  store_otpks-Keeps : (pairs : List OtpkPair) → Keeps (IsSpent k) (store_otpks b64 pairs)
  unfolding store_otpks
  store_otpks-Keeps [] = Keeps-pure (IsSpent k) tt
  store_otpks-Keeps (pair ∷ pairs) =
      Keeps-bind (IsSpent k) (store_otpk b64 pair) (λ _. store_otpks b64 pairs)
        (store_otpk-Keeps pair) (λ _. store_otpks-Keeps pairs)

  pub store_otpk_batch-Keeps :
      (pairs : List OtpkPair) → Keeps (IsSpent k) (store_otpk_batch b64 pairs)
  unfolding store_otpk_batch
  store_otpk_batch-Keeps pairs =
      Keeps-bind (IsSpent k) init_vault (λ _. transaction (store_otpks b64 pairs))
        (Keeps-init_vault (IsSpent k))
        (λ _. Keeps-transaction (IsSpent k) (store_otpks b64 pairs) (store_otpks-Keeps pairs))

  unfoldable pub mark_then_decode : (j now : String) (r : OtpkRow) → Exec Db (Option (List ℕ))
  mark_then_decode j now r = do
    execute (with_otpks (mark_consumed now j))
    bytes ← coded (b64.decode r.private_key_b64)
    pure (some bytes)

  mark_then_decode-Keeps :
      (j now : String) (r : OtpkRow) → Keeps (IsSpent k) (mark_then_decode j now r)
  unfolding mark_then_decode
  mark_then_decode-Keeps j now r =
      Keeps-bind (IsSpent k) (execute (with_otpks (mark_consumed now j))) _
        (Keeps-execute (IsSpent k) _ (mark-KeptBy k now j))
        (λ _.
          Keeps-bind (IsSpent k) (coded (b64.decode r.private_key_b64)) _ (coded-Keeps k _)
            (λ bytes. Keeps-pure (IsSpent k) (some bytes)))

  use_otpk-Keeps : (j : String) (row : Option OtpkRow) → Keeps (IsSpent k) (use_otpk b64 j row)
  unfolding use_otpk mark_then_decode
  use_otpk-Keeps j none = record { at = λ d h. h }
  use_otpk-Keeps j (some r) = record {
    at = λ d h. elim (Bool-cases r.consumed) [
      | inl c ↦ rw (if-true r.consumed _ (mark_then_decode j d.now r d) c) h
      | inr c ↦
          rw (if-false r.consumed _ (mark_then_decode j d.now r d) c)
            ((mark_then_decode-Keeps j d.now r).at d h)
    ];
  }

  pub consume-Keeps : (j : String) → Keeps (IsSpent k) (consume_otpk_private_key b64 j)
  unfolding consume_otpk_private_key
  consume-Keeps j = Keeps-bind (IsSpent k) init_vault _ (Keeps-init_vault (IsSpent k)) (λ _.
      Keeps-bind (IsSpent k) (select (λ t. find_otpk j t.otpk_private_keys)) (use_otpk b64 j)
        (Keeps-select (IsSpent k) _) (use_otpk-Keeps j))
