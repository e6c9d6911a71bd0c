-- ===== src/Vault/Otpk/Consuming.antt =====
-- vault.ts, `consumeOtpkPrivateKey`: it does what the abstract store does.
use ep2pchat.Base.{
  ◌≡◌, refl, sym, ap, subst, ◌∙◌, ite, String, Bool, true, false, Option, none, some, List, arith,
  string_dec, ℕ,
}
use ep2pchat.Base.Exec.{Result, ok, pure, ◌>>=◌}
use ep2pchat.Base.Codec.{Base64}
use ep2pchat.Vault.Db.{Tables, Db, OtpkRow}
use ep2pchat.Vault.Init.{init_vault-opened}
use ep2pchat.Vault.Working.{IsWorking, execute-working, select-working}
use ep2pchat.Vault.Otpk.{find_otpk, mark_consumed, otpks, coded, use_otpk, consume_otpk_private_key}
use ep2pchat.Vault.Otpk.Keystore.{
  Status, absent, fresh, used, after_use, given_out, consume_key, status_of_row, status_of,
  mark_consumed-status, bytes_of, answer_of, Implements,
}

module _ (b64 : Base64) where
  abbrev pub marked : String → Db → Db
  marked k d = record d {
    tables = record d.tables { otpk_private_keys = mark_consumed d.now k (otpks d) };
  }

  coded-bytes :
      (o : Option (List ℕ)) (d : Db) → (do bytes ← coded o; pure (some bytes)) d ≡ (bytes_of o, d)
  coded-bytes none d = refl
  coded-bytes (some bytes) d = refl

  use_otpk-fresh :
      (k : String) (r : OtpkRow) (d : Db)
      → IsWorking d
      → r.consumed ≡ false
      → use_otpk b64 k (some r) d ≡ (bytes_of (b64.decode r.private_key_b64), marked k d)
  unfolding use_otpk
  use_otpk-fresh k r d w c =
      let mark = λ (t : Tables). record t {
        otpk_private_keys = mark_consumed d.now k t.otpk_private_keys;
      } in
      rw c (rw (execute-working d w mark) (coded-bytes (b64.decode r.private_key_b64) _))

  consume-working :
      (k : String) (d : Db)
      → IsWorking d
      → consume_otpk_private_key b64 k d ≡ use_otpk b64 k (find_otpk k (otpks d)) d
  unfolding consume_otpk_private_key
  consume-working k d w =
      rw (init_vault-opened d w.opened)
        (rw (select-working d w (λ t. find_otpk k t.otpk_private_keys)) refl)

  pub consume-fresh :
      (k : String) (r : OtpkRow) (d : Db)
      → IsWorking d
      → find_otpk k (otpks d) ≡ some r
      → r.consumed ≡ false
      → consume_otpk_private_key b64 k d ≡ (bytes_of (b64.decode r.private_key_b64), marked k d)
  consume-fresh k r d w f c =
      consume-working k d w ∙ ap (λ o. use_otpk b64 k o d) f ∙ use_otpk-fresh k r d w c

  -- The two sides after a key was consumed: what was returned, and the tables.
  pub record Consumed (k : String) (s : String → Status) (d : Db)
      (r : Result (Option (List ℕ)) × Db) : Type 0 where
    pub answer : r.0 ≡ answer_of b64 (given_out (s k))
    pub next : Implements r.1 (consume_key k s)
    pub saved : r.1.saved ≡ d.saved

  unchanged :
      (k : String) (s : String → Status)
      → after_use (s k) ≡ s k
      → (j : String) → s j ≡ consume_key k s j
  unchanged k s h j = ground arith

  -- Nothing is given out, and nothing changes.
  untouched :
      (k : String) (s : String → Status) (d : Db) (t : Status)
      → Implements d s
      → t ≡ s k
      → given_out t ≡ none
      → after_use t ≡ t
      → Consumed k s d (ok none, d)
  untouched k s d t i e g u = record {
    answer = ap (answer_of b64) (sym g) ∙ ap (λ x. answer_of b64 (given_out x)) e;
    next = record {
      vault = i.vault;
      same = λ j. i.same j ∙ unchanged k s (ap after_use (sym e) ∙ u ∙ e) j;
    };
    saved = refl;
  }

  taken :
      (k : String) (s : String → Status) (d : Db) (r : OtpkRow)
      → Implements d s
      → fresh r.private_key_b64 ≡ s k
      → Consumed k s d (bytes_of (b64.decode r.private_key_b64), marked k d)
  taken k s d r i e = record {
    answer = ap (λ x. answer_of b64 (given_out x)) e;
    next = record {
      vault = record { opened = i.vault.opened; faults = i.vault.faults };
      same = λ j.
          mark_consumed-status d.now k j (otpks d)
          ∙ ap (λ x. ite (string_dec k j) (after_use x) x) (i.same j);
    };
    saved = refl;
  }

  used_row :
      (k : String) (s : String → Status) (d : Db) (r : OtpkRow)
      → Implements d s
      → status_of_row r ≡ s k
      → (b : Bool) → r.consumed ≡ b
      → Consumed k s d (use_otpk b64 k (some r) d)
  unfolding use_otpk
  used_row k s d r i e true c = rw c (
      untouched k s d used i
        (ap (λ b. elim b [ true ↦ used | false ↦ fresh r.private_key_b64 ]) (sym c) ∙ e) refl refl)
  used_row k s d r i e false c = subst (Consumed k s d) (sym (use_otpk-fresh k r d i.vault c)) (
      taken k s d r i
        (ap (λ b. elim b [ true ↦ used | false ↦ fresh r.private_key_b64 ]) (sym c) ∙ e))

  used_with :
      (k : String) (s : String → Status) (d : Db) (o : Option OtpkRow)
      → Implements d s
      → find_otpk k (otpks d) ≡ o
      → Consumed k s d (use_otpk b64 k o d)
  unfolding use_otpk
  used_with k s d none i e = untouched k s d absent i (ap status_of (sym e) ∙ i.same k) refl refl
  used_with k s d (some r) i e =
      used_row k s d r i (ap status_of (sym e) ∙ i.same k) r.consumed refl

  -- `consumeOtpkPrivateKey` on a vault that works and holds the keys as the store says returns what
  -- the store gives out, and leaves a vault that works and holds the keys as the store does then.
  pub consume-Consumed :
      (k : String) (s : String → Status) (d : Db)
      → Implements d s
      → Consumed k s d (consume_otpk_private_key b64 k d)
  consume-Consumed k s d i =
      subst (Consumed k s d) (sym (consume-working k d i.vault))
        (used_with k s d (find_otpk k (otpks d)) i refl)
