-- ===== src/Vault/Otpk/Storing.antt =====
-- vault.ts, `storeOtpkBatch`: it does what the abstract store does.
use ep2pchat.Base.{
  ◌≡◌, refl, sym, ap, subst, ◌∙◌, ite, String, false, none, some, List, [], ◌∷◌, string_dec,
}
use ep2pchat.Base.Exec.{Result, ok, err}
use ep2pchat.Base.Codec.{Base64}
use ep2pchat.Vault.Db.{Tables, Db, OtpkRow, next_fails, later}
use ep2pchat.Vault.Init.{init_vault-opened}
use ep2pchat.Vault.Transaction.{transaction, begun, begin-working, commit-working, closing}
use ep2pchat.Vault.Working.{IsWorking, execute-working}
use ep2pchat.Vault.Otpk.{OtpkPair, insert_otpk, otpks, store_otpk, store_otpks, store_otpk_batch}
use ep2pchat.Vault.Otpk.Keystore.{
  Status, after_store, store_key, insert_otpk-status, Implements, store_keys, AreTexts,
}

module _ (b64 : Base64) where
  pub record Stored (s : String → Status) (d : Db) (r : Result (Unit {0}) × Db) : Type 0 where
    pub answer : r.0 ≡ ok tt
    pub next : Implements r.1 s
    pub saved : r.1.saved ≡ d.saved

  abbrev row_for : OtpkPair → String → Db → OtpkRow
  row_for p text d = record {
    key_id = p.key_id;
    private_key_b64 = text;
    created_at = d.now;
    consumed = false;
    consumed_at = none;
  }

  abbrev added : OtpkRow → Db → Db
  added r d = record d { tables = record d.tables { otpk_private_keys = insert_otpk r (otpks d) } }

  store_otpk-working :
      (p : OtpkPair) (text : String) (d : Db)
      → IsWorking d
      → b64.encode p.private_key ≡ some text
      → store_otpk b64 p d ≡ (ok tt, added (row_for p text d) d)
  unfolding store_otpk
  store_otpk-working p text d w e = rw e (
      execute-working d w
        (λ t. record t { otpk_private_keys = insert_otpk (row_for p text d) t.otpk_private_keys }))

  added-Implements :
      (p : OtpkPair) (text : String) (s : String → Status) (d : Db)
      → Implements d s
      → Implements (added (row_for p text d) d) (store_key p.key_id text s)
  added-Implements p text s d i = record {
    vault = record { opened = i.vault.opened; faults = i.vault.faults };
    same = λ j.
        insert_otpk-status (row_for p text d) j (otpks d) refl
        ∙ ap (λ x. ite (string_dec p.key_id j) (after_store text x) x) (i.same j);
  }

  store_otpks-Stored :
      (ps : List OtpkPair) (ts : List (String × String)) (s : String → Status) (d : Db)
      → AreTexts b64 ps ts
      → Implements d s
      → Stored (store_keys ts s) d (store_otpks b64 ps d)
  unfolding store_otpks
  store_otpks-Stored [] [] s d a i = record { answer = refl; next = i; saved = refl }
  store_otpks-Stored [] (t ∷ ts) s d a i = absurd a
  store_otpks-Stored (p ∷ ps) [] s d a i = absurd a
  store_otpks-Stored (p ∷ ps) ((k, text) ∷ ts) s d (e, c, a) i =
      let rest = store_otpks-Stored ps ts (store_key k text s) (added (row_for p text d) d) a (
        subst (λ j. Implements (added (row_for p text d) d) (store_key j text s)) e
          (added-Implements p text s d i)) in
      rw (store_otpk-working p text d i.vault c)
        (record { answer = rest.answer; next = rest.next; saved = rest.saved })

  committed :
      (s : String → Status) (d : Db) (t : Tables) (r : Result (Unit {0}) × Db)
      → Stored s (begun d) r
      → d.saved ≡ none
      → Stored s d (closing r)
  committed s d t (ok _, e) i h =
      rw (commit-working e d.tables (ap next_fails i.next.vault.faults) i.saved) (record {
        answer = refl;
        next = record {
          vault = record { opened = i.next.vault.opened; faults = ap later i.next.vault.faults };
          same = i.next.same;
        };
        saved = sym h;
      })
  committed s d t (err x, e) i h = absurd (cc i.answer)

  -- `storeOtpkBatch` on a vault that works, outside of a transaction, and holds the keys as the
  -- store says, with pairs that the codec takes, returns, and leaves a vault that works, is outside
  -- of a transaction and holds the keys as the store does once it was given the texts of the pairs.
  pub store_batch-Stored :
      (ps : List OtpkPair) (ts : List (String × String)) (s : String → Status) (d : Db)
      → AreTexts b64 ps ts
      → Implements d s
      → d.saved ≡ none
      → Stored (store_keys ts s) d (store_otpk_batch b64 ps d)
  unfolding store_otpk_batch transaction
  store_batch-Stored ps ts s d a i h =
      let begun_i : Implements (begun d) s = record {
        vault = record { opened = i.vault.opened; faults = ap later i.vault.faults };
        same = i.same;
      } in
      rw (init_vault-opened d i.vault.opened) (
        rw (begin-working d (ap next_fails i.vault.faults) h) (
          committed (store_keys ts s) d d.tables (store_otpks b64 ps (begun d))
            (store_otpks-Stored ps ts s (begun d) a begun_i) h))
