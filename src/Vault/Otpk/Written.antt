-- ===== src/Vault/Otpk/Written.antt =====
-- vault.ts, `storeOtpkBatch`: what the vault holds once it has returned, whatever could have failed.
use ep2pchat.Base.{
  ◌≡◌, refl, sym, ap, subst, ◌∙◌, inl, inr, String, true, false, Option, none, some, List, [], ◌∷◌,
  ◌++◌, if_pos, string_dec, is_some, All, arith, Option-cases, Bool-cases,
}
use ep2pchat.Base.Exec.{Result, ok, err, Exec, ◌>>=◌}
use ep2pchat.Base.Codec.{Base64}
use ep2pchat.Vault.Db.{Tables, Db, OtpkRow, execute, init_vault, begin_transaction, next_fails}
use ep2pchat.Vault.Transaction.{
  transaction, begun, KeepsSaved, Outcome, refused, committed, rolled_back, left_open,
  transaction-Outcome,
}
use ep2pchat.Vault.Written.{
  Returns, Returns-bind, Returns-weaken, Returns-at, Wrote, execute-Returns, init_vault-IsSame,
}
use ep2pchat.Vault.Otpk.{
  OtpkPair, find_otpk, insert_otpk, otpks, with_otpks, coded, store_otpk, store_otpks,
  store_otpk_batch,
}

find_otpk-append :
    (k : String) (rs : List OtpkRow) (r : OtpkRow)
    → is_some (find_otpk k rs) ≡ true
    → is_some (find_otpk k (rs ++ r ∷ [])) ≡ true
unfolding find_otpk
find_otpk-append k [] r h = cc
find_otpk-append k (x ∷ rs) r h = ground (arith, find_otpk-append k rs r)

find_otpk-last :
    (rs : List OtpkRow) (r : OtpkRow) → is_some (find_otpk r.key_id (rs ++ r ∷ [])) ≡ true
unfolding find_otpk
find_otpk-last [] r = rw (if_pos (string_dec r.key_id r.key_id) refl _ _) refl
find_otpk-last (x ∷ rs) r = ground (arith, find_otpk-last rs r)

insert_otpk-others :
    (k : String) (rs : List OtpkRow) (r : OtpkRow)
    → is_some (find_otpk k rs) ≡ true
    → is_some (find_otpk k (insert_otpk r rs)) ≡ true
unfolding insert_otpk
insert_otpk-others k rs r h = ground (arith, find_otpk-append k rs r)

insert_otpk_self :
    (rs : List OtpkRow) (r : OtpkRow) → is_some (find_otpk r.key_id (insert_otpk r rs)) ≡ true
unfolding insert_otpk
insert_otpk_self rs r = ground (arith, find_otpk-last rs r)

-- A key is in the table.
abbrev pub IsStored : String → Tables → Type 0
IsStored k t = is_some (find_otpk k t.otpk_private_keys) ≡ true

-- The keys of the pairs are in the table with those that were, and the other tables are as they were.
pub record HasPreKeys (pairs : List OtpkPair) (t u : Tables) : Type 0 where
  pub stored : All (λ (p : OtpkPair). IsStored p.key_id u) pairs
  pub others : (k : String) → IsStored k t → IsStored k u
  pub keys : u.local_keys ≡ t.local_keys
  pub config : u.user_config ≡ t.user_config

-- What an operation that starts in `d` has stored.
abbrev pub Stores : List OtpkPair → Db → Db → Type 0
Stores ps d e = HasPreKeys ps d.tables e.tables

abbrev row_of : OtpkPair → String → Db → OtpkRow
row_of p key d = record {
  key_id = p.key_id;
  private_key_b64 = key;
  created_at = d.now;
  consumed = false;
  consumed_at = none;
}

inserted :
    (p : OtpkPair) (d : Db) (o : Option String)
    → Returns
        (Stores (p ∷ []) d)
        ((do key ← coded o; execute (with_otpks (insert_otpk (row_of p key d)))) d)
inserted p d none = tt
inserted p d (some key) =
    let row = row_of p key d in
    let put =
      λ (t : Tables). record t { otpk_private_keys = insert_otpk row t.otpk_private_keys } in
    Returns-weaken (Wrote put d) (Stores (p ∷ []) d) (execute (λ t. some (put t)) d)
      (execute-Returns put d)
      (λ u w. record {
        stored = (
          ap (λ (t : Tables). is_some (find_otpk p.key_id t.otpk_private_keys)) w.tables
              ∙ insert_otpk_self (otpks d) row,
          tt,
        );
        others = λ k h.
            ap (λ (t : Tables). is_some (find_otpk k t.otpk_private_keys)) w.tables
            ∙ insert_otpk-others k (otpks d) row h;
        keys = ap (λ (t : Tables). t.local_keys) w.tables;
        config = ap (λ (t : Tables). t.user_config) w.tables;
      })

module _ (b64 : Base64) where
  store_otpk-Returns : (p : OtpkPair) (d : Db) → Returns (Stores (p ∷ []) d) (store_otpk b64 p d)
  unfolding store_otpk
  store_otpk-Returns p d = inserted p d (b64.encode p.private_key)

  store_otpks-Returns : (ps : List OtpkPair) (d : Db) → Returns (Stores ps d) (store_otpks b64 ps d)
  unfolding store_otpks
  store_otpks-Returns [] d = record { stored = tt; others = λ k h. h; keys = refl; config = refl }
  store_otpks-Returns (p ∷ ps) d =
      Returns-bind (Stores (p ∷ ps) d) (store_otpk b64 p) (λ _. store_otpks b64 ps) d
        (λ a e q.
          let one : HasPreKeys (p ∷ []) d.tables e.tables =
            Returns-at (Stores (p ∷ []) d) (store_otpk-Returns p d) q in
          Returns-weaken (Stores ps e) (Stores (p ∷ ps) d) (store_otpks b64 ps e)
            (store_otpks-Returns ps e)
            (λ u w. record {
              stored = (w.others p.key_id one.stored.0, w.stored);
              others = λ k h. w.others k (one.others k h);
              keys = w.keys ∙ one.keys;
              config = w.config ∙ one.config;
            }))

KeepsSaved-bind :
    {A B : Type 0} (d : Db) (r : Result A × Db) (f : A → Exec Db B)
    → r.1.saved ≡ d.saved
    → ((a : A) (e : Db) → (f a e).1.saved ≡ e.saved)
    → (((λ _. r) >>= f) d).1.saved ≡ d.saved
KeepsSaved-bind d (ok a, e) f h k = k a e ∙ h
KeepsSaved-bind d (err x, e) f h k = h

execute-saved : (f : Tables → Option Tables) (d : Db) → (execute f d).1.saved ≡ d.saved
unfolding execute
execute-saved f d = ground arith

inserted-saved :
    (p : OtpkPair) (d : Db) (o : Option String)
    → ((do key ← coded o; execute (with_otpks (insert_otpk (row_of p key d)))) d).1.saved ≡ d.saved
inserted-saved p d none = refl
inserted-saved p d (some key) = execute-saved _ d

-- What is stored where the transaction of the batch returned.
from_outcome :
    (ps : List OtpkPair) (d : Db) (r : Result (Unit {0})) (b : Db) (out : Result (Unit {0}) × Db)
    → Outcome d r b out
    → Returns (Stores ps d) (r, b)
    → Returns (Stores ps d) out
from_outcome ps d r b _ (refused f) h = tt
from_outcome ps d r b _ (committed t g e f same s) h =
    subst (HasPreKeys ps d.tables) (sym same) (Returns-at (Stores ps d) h (ap (λ x. (x, b)) e))
from_outcome ps d r b _ (rolled_back x t g f w same s) h = tt
from_outcome ps d r b _ (left_open x t g f w s) h = tt

nested :
    (body : Exec Db (Unit {0})) (Q : Db → Type 0) (d : Db) (t : Tables)
    → d.saved ≡ some t
    → Returns Q (transaction body d)
unfolding transaction begin_transaction
nested body Q d t h = elim (Bool-cases (next_fails d.faults)) [
  | inl f ↦ rw (f, transaction, begin_transaction) tt
  | inr f ↦ rw (f, h, transaction, begin_transaction) tt
]

module _ (b64 : Base64) where
  store_otpks-KeepsSaved : (ps : List OtpkPair) → KeepsSaved (store_otpks b64 ps)
  unfolding store_otpks store_otpk
  store_otpks-KeepsSaved [] d = refl
  store_otpks-KeepsSaved (p ∷ ps) d =
      KeepsSaved-bind d (store_otpk b64 p d) (λ _. store_otpks b64 ps)
        (inserted-saved p d (b64.encode p.private_key)) (λ a e. store_otpks-KeepsSaved ps e)

  transaction-Returns :
      (ps : List OtpkPair) (d : Db) → Returns (Stores ps d) (transaction (store_otpks b64 ps) d)
  transaction-Returns ps d = elim (Option-cases d.saved) [
    | inl n ↦
        from_outcome ps d (store_otpks b64 ps (begun d)).0 (store_otpks b64 ps (begun d)).1
          (transaction (store_otpks b64 ps) d)
          (transaction-Outcome (store_otpks b64 ps) d (store_otpks-KeepsSaved ps) n)
          (store_otpks-Returns b64 ps (begun d))
    | inr (t, e) ↦ nested (store_otpks b64 ps) (Stores ps d) d t e
  ]

  -- Where `storeOtpkBatch` has returned, the keys of the batch are in the table, with those that were,
  -- and the device's keys and the configuration are as they were.
  pub store_otpk_batch-Returns :
      (ps : List OtpkPair) (d : Db) → Returns (Stores ps d) (store_otpk_batch b64 ps d)
  unfolding store_otpk_batch
  store_otpk_batch-Returns ps d =
      Returns-bind (Stores ps d) init_vault (λ _. transaction (store_otpks b64 ps)) d
        (λ a e q.
          subst
            (λ t.
              Returns (λ (u : Db). HasPreKeys ps t u.tables) (transaction (store_otpks b64 ps) e))
            (init_vault-IsSame d e a q).tables (transaction-Returns ps e))
