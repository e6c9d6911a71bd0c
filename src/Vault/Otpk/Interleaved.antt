-- ===== src/Vault/Otpk/Interleaved.antt =====
-- vault.ts, `consumeOtpkPrivateKey`: calls that run while others wait.
use ep2pchat.Base.{ℕ, ◌≡◌, ◌≢◌, sym, subst, ℕ_discrete, String, some, List, [], ◌∷◌, if_pos, if_neg}
use ep2pchat.Base.Exec.{ok}
use ep2pchat.Base.Codec.{Base64}
use ep2pchat.Vault.Db.{Tables}
use ep2pchat.Vault.Otpk.Spent.{IsSpent, mark_consumed-spent}
use ep2pchat.Vault.Otpk.Steps.{
  ConsumeCall, initiating, selecting, marking, settled, advance, Flight, resume, resumes,
}
use ep2pchat.Vault.Otpk.Advance.{
  Marks, same, marks, Says, IsLate, Says-marked, advance-Marks, advance-Says, advance-IsLate,
}

module _ (b64 : Base64) (keys : ℕ → String) where
  abbrev IsSound : Flight b64 → Type 0
  IsSound s = (i : ℕ) → Says b64 (keys i) s.db.tables (s.in_flight i)

  resume-IsSound : (i : ℕ) (s : Flight b64) → IsSound s → IsSound (resume b64 keys i s)
  unfolding resume
  resume-IsSound i s h j =
      let r = advance b64 (keys i) (s.in_flight i) s.db in
      let kept = Says-marked b64 (keys j) s.db.tables r.1.tables in
      elim (ℕ_discrete i j) [
        | yes p ↦ rw (if_pos (ℕ_discrete i j) p r.0 (s.in_flight j)) (
            subst (λ n. Says b64 (keys n) r.1.tables r.0) p
              (advance-Says b64 (keys i) (s.in_flight i) s.db (h i)))
        | no n ↦
            rw (if_neg (ℕ_discrete i j) n r.0 (s.in_flight j))
              (kept (s.in_flight j) (advance-Marks b64 (keys i) (s.in_flight i) s.db) (h j))
      ]

  resumes-IsSound : (is : List ℕ) (s : Flight b64) → IsSound s → IsSound (resumes b64 keys is s)
  unfolding resumes
  resumes-IsSound [] s h = h
  resumes-IsSound (i ∷ is) s h = resumes-IsSound is (resume b64 keys i s) (resume-IsSound i s h)

  -- What a call that is late for its key keeps.
  record Late (j : ℕ) (s : Flight b64) : Type 0 where
    late : IsLate b64 (s.in_flight j)
    spent : IsSpent (keys j) s.db.tables

  IsSpent-Marks : (k : String) (t u : Tables) → Marks t u → IsSpent k t → IsSpent k u
  IsSpent-Marks k t u same h = h
  IsSpent-Marks k t u (marks now j) h = mark_consumed-spent now j k t.otpk_private_keys h

  resume-Late : (i j : ℕ) (s : Flight b64) → Late j s → Late j (resume b64 keys i s)
  unfolding resume
  resume-Late i j s h =
      let r = advance b64 (keys i) (s.in_flight i) s.db in
      record {
        late = elim (ℕ_discrete i j) [
          | yes p ↦ rw (if_pos (ℕ_discrete i j) p r.0 (s.in_flight j)) (
              advance-IsLate b64 (keys i) (s.in_flight i) s.db
                (subst (λ n. IsSpent (keys n) s.db.tables) (sym p) h.spent)
                (subst (λ n. IsLate b64 (s.in_flight n)) (sym p) h.late))
          | no n ↦ rw (if_neg (ℕ_discrete i j) n r.0 (s.in_flight j)) h.late
        ];
        spent =
            IsSpent-Marks (keys j) s.db.tables r.1.tables
              (advance-Marks b64 (keys i) (s.in_flight i) s.db) h.spent;
      }

  resumes-Late : (is : List ℕ) (j : ℕ) (s : Flight b64) → Late j s → Late j (resumes b64 keys is s)
  unfolding resumes
  resumes-Late [] j s h = h
  resumes-Late (i ∷ is) j s h = resumes-Late is j (resume b64 keys i s) (resume-Late i j s h)

  IsLate-ne : (c : ConsumeCall) (bytes : List ℕ) → IsLate b64 c → c ≢ settled (ok (some bytes))
  IsLate-ne c bytes h e = subst (IsLate b64) e h

  Says-settled :
      (k : String) (t : Tables) (c : ConsumeCall) (bytes : List ℕ)
      → c ≡ settled (ok (some bytes))
      → Says b64 k t c
      → IsSpent k t
  Says-settled k t c bytes e h = subst (Says b64 k t) e h

  -- A call that has still to read its key's row.
  abbrev pub IsUnread : ConsumeCall → Type 0
  IsUnread initiating = Unit
  IsUnread selecting = Unit
  IsUnread _ = ⊥

  IsUnread-IsLate : (c : ConsumeCall) → IsUnread c → IsLate b64 c
  IsUnread-IsLate initiating h = tt
  IsUnread-IsLate selecting h = tt
  IsUnread-IsLate (marking r) h = absurd h
  IsUnread-IsLate (settled r) h = absurd h

  -- Calls of `consumeOtpkPrivateKey` run interleaved, in any order and with any failures, all of
  -- them from the beginning: once one was handed its key, no call for that key that has still to
  -- read the row is handed it, whatever runs in between.
  pub resumes-once :
      (s : Flight b64) (before after : List ℕ) (i j : ℕ) (first second : List ℕ)
      → ((n : ℕ) → s.in_flight n ≡ initiating)
      → (resumes b64 keys before s).in_flight i ≡ settled (ok (some first))
      → keys i ≡ keys j
      → IsUnread ((resumes b64 keys before s).in_flight j)
      → (resumes b64 keys after (resumes b64 keys before s)).in_flight j
        ≢ settled (ok (some second))
  resumes-once s before after i j first second start handed same_key unread =
      let t = resumes b64 keys before s in
      let sound =
        resumes-IsSound before s (λ n. subst (Says b64 (keys n) s.db.tables) (sym (start n)) tt) in
      let spent = Says-settled (keys i) t.db.tables (t.in_flight i) first handed (sound i) in
      let late : Late j t = record {
        late = IsUnread-IsLate (t.in_flight j) unread;
        spent = subst (λ k. IsSpent k t.db.tables) same_key spent;
      } in
      IsLate-ne _ second (resumes-Late after j t late).late
