-- ===== src/Vault/Otpk/Twice.antt =====
-- vault.ts, `consumeOtpkPrivateKey`: two calls for one key that take turns.
use ep2pchat.Base.{
  ℕ, ◌≡◌, ◌≢◌, refl, sym, ap, ◌∙◌, ℕ_discrete, String, false, some, List, [], ◌∷◌, if_pos, if_neg,
}
use ep2pchat.Base.Exec.{ok}
use ep2pchat.Base.Codec.{Base64}
use ep2pchat.Vault.Db.{Tables, Db, OtpkRow}
use ep2pchat.Vault.Init.{init_vault-opened}
use ep2pchat.Vault.Working.{IsWorking, execute-working, select-working}
use ep2pchat.Vault.Otpk.{find_otpk, mark_consumed, otpks}
use ep2pchat.Vault.Otpk.Steps.{
  ConsumeCall, initiating, selecting, marking, settled, bytes_in, advance, Flight, resume, resumes,
}

module _ (b64 : Base64) (keys : ℕ → String) (i j : ℕ) (other : i ≢ j) where
  -- How the two calls and the vault stand.
  record Stands (s : Flight b64) (a b : ConsumeCall) (d : Db) : Type 0 where
    one : s.in_flight i ≡ a
    two : s.in_flight j ≡ b
    vault : s.db ≡ d

  resume-one :
      {s : Flight b64} {a b c : ConsumeCall} {d e : Db}
      → Stands s a b d
      → advance b64 (keys i) a d ≡ (c, e)
      → Stands (resume b64 keys i s) c b e
  unfolding resume
  resume-one {s} {a} {b} {c} {d} {e} h p =
      let q : advance b64 (keys i) (s.in_flight i) s.db ≡ (c, e) =
        ap (λ x. advance b64 (keys i) x s.db) h.one ∙ ap (advance b64 (keys i) a) h.vault ∙ p in
      let new = (advance b64 (keys i) (s.in_flight i) s.db).0 in
      record {
        one = if_pos (ℕ_discrete i i) refl new (s.in_flight i) ∙ ap (λ r. r.0) q;
        two = if_neg (ℕ_discrete i j) other new (s.in_flight j) ∙ h.two;
        vault = ap (λ r. r.1) q;
      }

module _ (b64 : Base64) (keys : ℕ → String) (i j : ℕ) (other : i ≢ j) where
  flip :
      {s : Flight b64} {a b : ConsumeCall} {d : Db}
      → Stands b64 keys i j other s a b d
      → Stands b64 keys j i (λ e. other (sym e)) s b a d
  flip h = record { one = h.two; two = h.one; vault = h.vault }

  resume-two :
      {s : Flight b64} {a b c : ConsumeCall} {d e : Db}
      → Stands b64 keys i j other s a b d
      → advance b64 (keys j) b d ≡ (c, e)
      → Stands b64 keys i j other (resume b64 keys j s) a c e
  resume-two h p =
      let t = resume-one b64 keys j i (λ e. other (sym e)) (flip h) p in
      record { one = t.two; two = t.one; vault = t.vault }

module _ (b64 : Base64) (k : String) (d : Db) (w : IsWorking d) where
  init-working : advance b64 k initiating d ≡ (selecting, d)
  unfolding advance
  init-working = rw (init_vault-opened d w.opened) refl

  select-fresh :
      (r : OtpkRow)
      → find_otpk k (otpks d) ≡ some r
      → r.consumed ≡ false
      → advance b64 k selecting d ≡ (marking r, d)
  unfolding advance
  select-fresh r f c =
      rw (select-working d w (λ t. find_otpk k t.otpk_private_keys)) (rw (f, c) refl)

  abbrev marked_db : Db
  marked_db = record d {
    tables = record d.tables { otpk_private_keys = mark_consumed d.now k (otpks d) };
  }

  mark-working :
      (r : OtpkRow)
      → advance b64 k (marking r) d
        ≡ (settled (bytes_in b64 (b64.decode r.private_key_b64)), marked_db)
  unfolding advance
  mark-working r =
      rw
        (execute-working d w (λ (t : Tables). record t {
          otpk_private_keys = mark_consumed d.now k t.otpk_private_keys;
        }))
        refl

module _ (b64 : Base64) (keys : ℕ → String) where
  -- On a vault that is open and works, two calls for the same key that is stored and not used, which
  -- the event loop resumes in turns, are both handed the key.
  pub resumes-twice :
      (i j : ℕ) (s : Flight b64) (r : OtpkRow) (bytes : List ℕ)
      → i ≢ j
      → keys i ≡ keys j
      → s.in_flight i ≡ initiating
      → s.in_flight j ≡ initiating
      → IsWorking s.db
      → find_otpk (keys i) (otpks s.db) ≡ some r
      → r.consumed ≡ false
      → b64.decode r.private_key_b64 ≡ some bytes
      → (let t = resumes b64 keys (i ∷ j ∷ i ∷ j ∷ i ∷ j ∷ []) s in
          (t.in_flight i ≡ settled (ok (some bytes))) × (t.in_flight j ≡ settled (ok (some bytes))))
  unfolding resumes
  resumes-twice i j s r bytes other same a b w f c e =
      let k = keys i in
      let d = s.db in
      let f2 : find_otpk (keys j) (otpks d) ≡ some r =
        ap (λ n. find_otpk n (otpks d)) (sym same) ∙ f in
      let h1 =
        resume-one b64 keys i j other (record { one = a; two = b; vault = refl })
          (init-working b64 k d w) in
      let h2 = resume-two b64 keys i j other h1 (init-working b64 (keys j) d w) in
      let h3 = resume-one b64 keys i j other h2 (select-fresh b64 k d w r f c) in
      let h4 = resume-two b64 keys i j other h3 (select-fresh b64 (keys j) d w r f2 c) in
      let h5 = resume-one b64 keys i j other h4 (mark-working b64 k d w r) in
      let w2 : IsWorking (marked_db b64 k d w) = record { opened = w.opened; faults = w.faults } in
      let h6 =
        resume-two b64 keys i j other h5 (mark-working b64 (keys j) (marked_db b64 k d w) w2 r) in
      let given = ap (λ o. settled (bytes_in b64 o)) e in (h6.one ∙ given, h6.two ∙ given)
