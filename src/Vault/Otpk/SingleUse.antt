-- ===== src/Vault/Otpk/SingleUse.antt =====
-- vault.ts: a one-time pre-key is handed out once, whatever fails in between.
use ep2pchat.Base.{
  ◌≡◌, refl, sym, ap, subst, ◌∙◌, ◌≢◌, String, true, Option, none, some, List, [], ◌∷◌, ℕ, arith,
  Bool-cases, if-true, if-false, inl, inr,
}
use ep2pchat.Base.Exec.{Result, ok, err, Exec, pure, ◌>>=◌}
use ep2pchat.Base.Codec.{Base64}
use ep2pchat.Vault.Db.{Tables, Db, OtpkRow, execute, select, init_vault, next_fails}
use ep2pchat.Vault.Init.{init_vault-rows}
use ep2pchat.Vault.Keeps.{Holds, OfSaved}
use ep2pchat.Vault.Otpk.{
  OtpkPair, find_otpk, coded, store_otpk_batch, use_otpk, consume_otpk_private_key,
}
use ep2pchat.Vault.Otpk.Spent.{
  is_spent, IsSpent, mark_consumed_self, mark_then_decode, store_otpk_batch-Keeps, consume-Keeps,
}

-- No key was handed out.
abbrev Denied : Result (Option (List ℕ)) × Db → Type 0
Denied (ok (some _), e) = ⊥
Denied _ = Unit

-- If a key was handed out, its row says so, and no transaction was begun or ended.
abbrev Spends : String → Db → Result (Option (List ℕ)) × Db → Type 0
Spends k d (ok (some _), e) = IsSpent k e.tables × (e.saved ≡ d.saved)
Spends k d _ = Unit

-- What holds after a step that left the tables `t` and the transaction as they were, of the rest.
module _ {A B : Type 0} (R : Result B × Db → Type 0) (d : Db) where
  step-then :
      (r : Result A × Db) (f : A → Exec Db B)
      → ((x : String) (e : Db) → R (err x, e))
      → ((a : A) → r.0 ≡ ok a → R (f a r.1))
      → R (((λ _. r) >>= f) d)
  step-then (ok a, e) f bad good = good a refl
  step-then (err x, e) f bad good = bad x e

select-same :
    {A : Type 0} (f : Tables → A) (d : Db)
    → ((select f d).1.tables ≡ d.tables) × ((select f d).1.saved ≡ d.saved)
unfolding select
select-same f d = ground arith

select-ok : {A : Type 0} (f : Tables → A) (d : Db) (a : A) → (select f d).0 ≡ ok a → f d.tables ≡ a
unfolding select
select-ok f d a h = ground arith

module _ (b64 : Base64) (k : String) where
  use_otpk-Denied :
      (d : Db) (row : Option OtpkRow) → is_spent row ≡ true → Denied (use_otpk b64 k row d)
  unfolding use_otpk mark_then_decode
  use_otpk-Denied d none h = cc
  use_otpk-Denied d (some r) h =
      rw (if-true r.consumed (ok none, d) (mark_then_decode b64 k k d.now r d) h) tt

  -- The operation is its SELECT after its `initVault`, both of which leave the rows alone.
  consume-cases :
      (R : Result (Option (List ℕ)) × Db → Type 0) (d : Db)
      → ((x : String) (e : Db) → R (err x, e))
      → ((e : Db)
          → e.tables ≡ d.tables
          → e.saved ≡ d.saved
          → R (use_otpk b64 k (find_otpk k d.tables.otpk_private_keys) e))
      → R (consume_otpk_private_key b64 k d)
  unfolding consume_otpk_private_key
  consume-cases R d bad good =
      let find = λ (t : Tables). find_otpk k t.otpk_private_keys in
      let d1 = (init_vault d).1 in
      let (t1, s1) = init_vault-rows d in
      let (t2, s2) = select-same find d1 in
      step-then R d (init_vault d) (λ _. select find >>= use_otpk b64 k) bad
        λ _ _. step-then R d1 (select find d1) (use_otpk b64 k) bad λ row e.
          subst (λ o. R (use_otpk b64 k o (select find d1).1))
            (ap (λ t. find_otpk k t.otpk_private_keys) (sym t1) ∙ select-ok find d1 row e)
            (good (select find d1).1 (t2 ∙ t1) (s2 ∙ s1))

  consume-Denied : (d : Db) → IsSpent k d.tables → Denied (consume_otpk_private_key b64 k d)
  consume-Denied d h = consume-cases Denied d (λ x e. tt) (λ e _ _. use_otpk-Denied e _ h)

  decoded-Spends :
      (d e : Db) (o : Option (List ℕ))
      → IsSpent k e.tables
      → e.saved ≡ d.saved
      → Spends k d ((coded o >>= λ bytes. pure (some bytes)) e)
  decoded-Spends d e none h s = tt
  decoded-Spends d e (some bytes) h s = (h, s)

  marked-Spends :
      (d e : Db) (r : OtpkRow)
      → find_otpk k e.tables.otpk_private_keys ≡ some r
      → e.saved ≡ d.saved
      → Spends k d (mark_then_decode b64 k k e.now r e)
  unfolding mark_then_decode execute
  marked-Spends d e r f s = elim (Bool-cases (next_fails e.faults)) [
    | inl b ↦ rw (b, execute, mark_then_decode) tt
    | inr b ↦
        rw (b, execute, mark_then_decode)
          (decoded-Spends d _ (b64.decode r.private_key_b64)
            (mark_consumed_self e.now k e.tables.otpk_private_keys r f) s)
  ]

  use_otpk-Spends :
      (d e : Db) (row : Option OtpkRow)
      → find_otpk k e.tables.otpk_private_keys ≡ row
      → e.saved ≡ d.saved
      → Spends k d (use_otpk b64 k row e)
  unfolding use_otpk mark_then_decode
  use_otpk-Spends d e none f s = tt
  use_otpk-Spends d e (some r) f s = elim (Bool-cases r.consumed) [
    | inl c ↦ rw (if-true r.consumed (ok none, e) (mark_then_decode b64 k k e.now r e) c) tt
    | inr c ↦
        rw (if-false r.consumed (ok none, e) (mark_then_decode b64 k k e.now r e) c)
          (marked-Spends d e r f s)
  ]

  consume-Spends : (d : Db) → Spends k d (consume_otpk_private_key b64 k d)
  consume-Spends d =
      consume-cases (Spends k d) d (λ x e. tt)
        (λ e t s. use_otpk-Spends d e _ (ap (λ u. find_otpk k u.otpk_private_keys) t) s)

-- The operations on the keys, in any order.
pub data OtpkCall : Type 0 where
  stores : List OtpkPair → OtpkCall
  consumes : String → OtpkCall

module _ (b64 : Base64) where
  unfoldable pub calls : List OtpkCall → Db → Db
  calls [] d = d
  calls (stores pairs ∷ cs) d = calls cs (store_otpk_batch b64 pairs d).1
  calls (consumes k ∷ cs) d = calls cs (consume_otpk_private_key b64 k d).1

  calls-Holds :
      (k : String) (cs : List OtpkCall) (d : Db)
      → Holds (IsSpent k) d
      → Holds (IsSpent k) (calls cs d)
  unfolding calls
  calls-Holds k [] d h = h
  calls-Holds k (stores pairs ∷ cs) d h =
      calls-Holds k cs _ ((store_otpk_batch-Keeps b64 k pairs).at d h)
  calls-Holds k (consumes j ∷ cs) d h = calls-Holds k cs _ ((consume-Keeps b64 k j).at d h)

  IsSpent-Holds :
      (k : String) (d : Db) (bytes : List ℕ) (r : Result (Option (List ℕ)) × Db)
      → d.saved ≡ none
      → r.0 ≡ ok (some bytes)
      → Spends k d r
      → Holds (IsSpent k) r.1
  IsSpent-Holds k d bytes (ok (some _), e) s h p = record {
    current = p.0;
    restored = subst (OfSaved (IsSpent k)) (sym (p.1 ∙ s)) tt;
  }
  IsSpent-Holds k d bytes (ok none, e) s h p = cc
  IsSpent-Holds k d bytes (err x, e) s h p = cc

  Denied-ne :
      (bytes : List ℕ) (r : Result (Option (List ℕ)) × Db) → Denied r → r.0 ≢ ok (some bytes)
  Denied-ne bytes (ok (some _), e) p = absurd p
  Denied-ne bytes (ok none, e) p = λ h. cc
  Denied-ne bytes (err x, e) p = λ h. cc

  -- Once a key was handed out, outside of any transaction, it is not handed out again, whatever
  -- batches are stored and keys consumed in between and whatever statements of them fail.
  pub consume_once :
      (k : String) (d : Db) (cs : List OtpkCall) (first second : List ℕ)
      → d.saved ≡ none
      → (consume_otpk_private_key b64 k d).0 ≡ ok (some first)
      → (consume_otpk_private_key b64 k (calls cs (consume_otpk_private_key b64 k d).1)).0
        ≢ ok (some second)
  consume_once k d cs first second s h =
      let spent_now =
        IsSpent-Holds k d first (consume_otpk_private_key b64 k d) s h (consume-Spends b64 k d) in
      Denied-ne second _ (consume-Denied b64 k _ (calls-Holds k cs _ spent_now).current)
