-- ===== src/Vault/Otpk/Advance.antt =====
-- vault.ts, `consumeOtpkPrivateKey`: what one step of a call keeps.
use ep2pchat.Base.{
  ℕ, ◌≡◌, refl, sym, ap, subst, inl, inr, String, true, Option, none, some, List, [], ◌∷◌, arith,
  Bool-cases, Option-cases, is_some,
}
use ep2pchat.Base.Exec.{Result, ok, err}
use ep2pchat.Base.Codec.{Base64}
use ep2pchat.Vault.Db.{Tables, Db, OtpkRow, execute, select, init_vault, next_fails}
use ep2pchat.Vault.Init.{init_vault-rows}
use ep2pchat.Vault.Otpk.{find_otpk, mark_consumed}
use ep2pchat.Vault.Otpk.Spent.{is_spent, IsSpent, mark_consumed-spent, mark_consumed_self}
use ep2pchat.Vault.Otpk.Steps.{
  ConsumeCall, initiating, selecting, marking, settled, after_init, after_select, bytes_in, advance,
}

-- The table has a row of the key.
abbrev pub IsKnown : String → Tables → Type 0
IsKnown k t = is_some (find_otpk k t.otpk_private_keys) ≡ true

mark_consumed-known :
    (now j k : String) (rs : List OtpkRow)
    → is_some (find_otpk k rs) ≡ true
    → is_some (find_otpk k (mark_consumed now j rs)) ≡ true
unfolding mark_consumed find_otpk
mark_consumed-known now j k [] h = cc
mark_consumed-known now j k (x ∷ rs) h = ground (arith, mark_consumed-known now j k rs)

mark_consumed-IsSpent :
    (now k : String) (t : Tables)
    → IsKnown k t
    → IsSpent k (record t { otpk_private_keys = mark_consumed now k t.otpk_private_keys })
mark_consumed-IsSpent now k t h = elim (Option-cases (find_otpk k t.otpk_private_keys)) [
  | inl e ↦ cc
  | inr (r, e) ↦ mark_consumed_self now k t.otpk_private_keys r e
]

-- A step leaves the tables, or marks a key in them.
pub data Marks (t : Tables) : Tables → Type 0 where
  same : Marks t t
  marks :
      (now j : String)
      → Marks t (record t { otpk_private_keys = mark_consumed now j t.otpk_private_keys })

module _ (b64 : Base64) where
  -- What a call's state says of the tables: a row that waits to be marked is there, and a key that
  -- was handed out is marked.
  abbrev pub Says : String → Tables → ConsumeCall → Type 0
  Says k t (marking r) = IsKnown k t
  Says k t (settled (ok (some bytes))) = IsSpent k t
  Says k t _ = Unit

  -- A call that has not been handed the key and will not be, once the key is marked.
  abbrev pub IsLate : ConsumeCall → Type 0
  IsLate (marking r) = ⊥
  IsLate (settled (ok (some bytes))) = ⊥
  IsLate _ = Unit

  Marks-eq : {t u : Tables} → u ≡ t → Marks t u
  Marks-eq {t} e = subst (Marks t) (sym e) same

  select-tables : {A : Type 0} (f : Tables → A) (d : Db) → (select f d).1.tables ≡ d.tables
  unfolding select
  select-tables f d = ground arith

  pub advance-Marks :
      (k : String) (c : ConsumeCall) (d : Db) → Marks d.tables (advance b64 k c d).1.tables
  unfolding advance execute
  advance-Marks k initiating d = Marks-eq (init_vault-rows d).0
  advance-Marks k selecting d = Marks-eq (select-tables _ d)
  advance-Marks k (marking r) d = elim (Bool-cases (next_fails d.faults)) [
    | inl b ↦ rw (b, execute) same
    | inr b ↦ rw (b, execute) (marks d.now k)
  ]
  advance-Marks k (settled r) d = same

  pub Says-marked :
      (k : String) (t u : Tables) (c : ConsumeCall) → Marks t u → Says k t c → Says k u c
  Says-marked k t u c same h = h
  Says-marked k t u initiating (marks now j) h = tt
  Says-marked k t u selecting (marks now j) h = tt
  Says-marked k t u (marking q) (marks now j) h = mark_consumed-known now j k t.otpk_private_keys h
  Says-marked k t u (settled (ok (some bytes))) (marks now j) h =
      mark_consumed-spent now j k t.otpk_private_keys h
  Says-marked k t u (settled (ok none)) (marks now j) h = tt
  Says-marked k t u (settled (err x)) (marks now j) h = tt

  init-Says : (k : String) (t : Tables) (x : Result (Unit {0})) → Says k t (after_init b64 x)
  init-Says k t (ok u) = tt
  init-Says k t (err x) = tt

  row-Says :
      (k : String) (t : Tables) (o : Option OtpkRow)
      → find_otpk k t.otpk_private_keys ≡ o
      → Says k t (after_select b64 (ok o))
  row-Says k t none h = tt
  row-Says k t (some r) h = elim (Bool-cases r.consumed) [
    | inl e ↦ rw e tt
    | inr e ↦ rw e (ap is_some h)
  ]

  bytes-Says :
      (k : String) (t : Tables) (o : Option (List ℕ))
      → IsSpent k t
      → Says k t (settled (bytes_in b64 o))
  bytes-Says k t none h = tt
  bytes-Says k t (some bytes) h = h

  -- What the state of the call that goes on says afterwards.
  pub advance-Says :
      (k : String) (c : ConsumeCall) (d : Db)
      → Says k d.tables c
      → Says k (advance b64 k c d).1.tables (advance b64 k c d).0
  unfolding advance execute select
  advance-Says k initiating d h = init-Says k (init_vault d).1.tables (init_vault d).0
  advance-Says k selecting d h = elim (Bool-cases (next_fails d.faults)) [
    | inl b ↦ rw (b, select) tt
    | inr b ↦ rw (b, select) (row-Says k d.tables (find_otpk k d.tables.otpk_private_keys) refl)
  ]
  advance-Says k (marking r) d h = elim (Bool-cases (next_fails d.faults)) [
    | inl b ↦ rw (b, execute) tt
    | inr b ↦
        let t = record d.tables {
          otpk_private_keys = mark_consumed d.now k d.tables.otpk_private_keys;
        } in
        rw (b, execute)
          (bytes-Says k t (b64.decode r.private_key_b64) (mark_consumed-IsSpent d.now k d.tables h))
  ]
  advance-Says k (settled r) d h = h

  row-IsLate : (o : Option OtpkRow) → is_spent o ≡ true → IsLate (after_select b64 (ok o))
  row-IsLate none h = cc
  row-IsLate (some r) h = rw h tt

  init-IsLate : (x : Result (Unit {0})) → IsLate (after_init b64 x)
  init-IsLate (ok u) = tt
  init-IsLate (err x) = tt

  pub advance-IsLate :
      (k : String) (c : ConsumeCall) (d : Db)
      → IsSpent k d.tables
      → IsLate c
      → IsLate (advance b64 k c d).0
  unfolding advance select
  advance-IsLate k initiating d s h = init-IsLate (init_vault d).0
  advance-IsLate k selecting d s h = elim (Bool-cases (next_fails d.faults)) [
    | inl b ↦ rw (b, select) tt
    | inr b ↦ rw (b, select) (row-IsLate (find_otpk k d.tables.otpk_private_keys) s)
  ]
  advance-IsLate k (marking r) d s h = absurd h
  advance-IsLate k (settled r) d s h = h
