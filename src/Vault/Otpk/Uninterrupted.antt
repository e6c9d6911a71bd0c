-- ===== src/Vault/Otpk/Uninterrupted.antt =====
-- vault.ts, `consumeOtpkPrivateKey`: a call that no other call runs between.
use ep2pchat.Base.{
  ℕ, ◌≡◌, refl, ap, ◌∙◌, ℕ_discrete, String, Bool, true, false, Option, none, some, List, [], ◌∷◌,
  if_pos,
}
use ep2pchat.Base.Exec.{Result, ok, err, pure, ◌>>=◌, ◌>>◌}
use ep2pchat.Base.Codec.{Base64}
use ep2pchat.Vault.Db.{Db, OtpkRow, execute, select, init_vault}
use ep2pchat.Vault.Otpk.{
  find_otpk, mark_consumed, with_otpks, coded, use_otpk, consume_otpk_private_key,
}
use ep2pchat.Vault.Otpk.Steps.{
  ConsumeCall, initiating, settled, after_init, after_select, after_mark, bytes_in, advance, Flight,
  resume, resumes,
}

module _ (b64 : Base64) (k : String) where
  -- A call that was settled, as what the whole function returns.
  abbrev Finished : ConsumeCall × Db → Result (Option (List ℕ)) × Db → Type 0
  Finished r e = r ≡ (settled e.0, e.1)

  decoded-Finished :
      (o : Option (List ℕ)) (d : Db)
      → Finished (settled (bytes_in b64 o), d) ((do bytes ← coded o; pure (some bytes)) d)
  decoded-Finished none d = refl
  decoded-Finished (some bytes) d = refl

  after_mark-Finished :
      (r : OtpkRow) (x : Result (Unit {0}) × Db) (d : Db)
      → Finished
          (after_mark b64 r x.0, x.1)
          (((λ _. x) >> do bytes ← coded (b64.decode r.private_key_b64); pure (some bytes)) d)
  after_mark-Finished r (ok u, e) d = decoded-Finished (b64.decode r.private_key_b64) e
  after_mark-Finished r (err x, e) d = refl

  -- The steps after the SELECT.
  abbrev go : ConsumeCall × Db → ConsumeCall × Db
  go r = advance b64 k r.0 r.1

  row-Finished :
      (r : OtpkRow) (d : Db) (b : Bool)
      → r.consumed ≡ b
      → Finished (go (after_select b64 (ok (some r)), d)) (use_otpk b64 k (some r) d)
  unfolding advance use_otpk
  row-Finished r d true h = rw h refl
  row-Finished r d false h =
      rw h (after_mark-Finished r (execute (with_otpks (mark_consumed d.now k)) d) d)

  select-Finished :
      (x : Result (Option OtpkRow) × Db) (d : Db)
      → Finished (go (after_select b64 x.0, x.1)) (((λ _. x) >>= use_otpk b64 k) d)
  unfolding advance use_otpk
  select-Finished (ok none, e) d = refl
  select-Finished (ok (some r), e) d = row-Finished r e r.consumed refl
  select-Finished (err x, e) d = refl

  init-Finished :
      (x : Result (Unit {0}) × Db) (d : Db)
      → Finished
          (go (go (after_init b64 x.0, x.1)))
          (((λ _. x) >> (select (λ t. find_otpk k t.otpk_private_keys) >>= use_otpk b64 k)) d)
  unfolding advance
  init-Finished (ok u, e) d = select-Finished (select (λ t. find_otpk k t.otpk_private_keys) e) e
  init-Finished (err x, e) d = refl

  -- A call that nothing else runs between does what `consume_otpk_private_key` says.
  pub advance-Finished :
      (d : Db) → Finished (go (go (go (initiating, d)))) (consume_otpk_private_key b64 k d)
  unfolding advance consume_otpk_private_key
  advance-Finished d = init-Finished (init_vault d) d

module _ (b64 : Base64) (keys : ℕ → String) (i : ℕ) where
  -- The call and the vault.
  abbrev pub at_call : Flight b64 → ConsumeCall × Db
  at_call s = (s.in_flight i, s.db)

  resume_self : (s : Flight b64) → at_call (resume b64 keys i s) ≡ go b64 (keys i) (at_call s)
  unfolding resume
  resume_self s =
      let r = advance b64 (keys i) (s.in_flight i) s.db in
      ap (λ (c : ConsumeCall). (c, r.1)) (if_pos (ℕ_discrete i i) refl r.0 (s.in_flight i))

  -- A call that is resumed three times with no other call in between has settled with what the
  -- atomic function returns, and leaves the vault as that function does.
  pub resumes-alone :
      (s : Flight b64)
      → s.in_flight i ≡ initiating
      → at_call (resumes b64 keys (i ∷ i ∷ i ∷ []) s) ≡ (
        settled (consume_otpk_private_key b64 (keys i) s.db).0,
        (consume_otpk_private_key b64 (keys i) s.db).1,
      )
  unfolding resumes
  resumes-alone s h =
      let s1 = resume b64 keys i s in
      resume_self (resume b64 keys i s1)
      ∙ ap (go b64 (keys i)) (resume_self s1 ∙ ap (go b64 (keys i)) (resume_self s))
      ∙ ap (λ c. go b64 (keys i) (go b64 (keys i) (go b64 (keys i) (c, s.db)))) h
      ∙ advance-Finished b64 (keys i) s.db
